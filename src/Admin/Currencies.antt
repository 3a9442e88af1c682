-- ===== src/Admin/Currencies.antt =====
-- Codes of currencies: the loops of `Execute` in backend/internal/admin/application/service.go and of
-- `split` in backend/internal/admin/adapters/config/provider.go.
use cross_border_logistics.Prelude.{String, ◌||◌, List, [], ◌∷◌, any, str_eq, if◌then◌else◌}
use cross_border_logistics.Go.{is_empty}
use cross_border_logistics.Admin.Domain.{code_of}

-- The codes that are not empty, each once, where it is first.
unfoldable pub distinct_codes : (String → String) → List String → List String → List String
distinct_codes to_upper seen [] = []
distinct_codes to_upper seen (currency ∷ currencies) =
    let code = code_of to_upper currency in
    let skip = is_empty code || any (λ c. str_eq c code) seen in
    let rest = distinct_codes to_upper (if skip then seen else code ∷ seen) currencies in
    if skip then rest else code ∷ rest
