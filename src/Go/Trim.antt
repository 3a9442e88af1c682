-- ===== src/Go/Trim.antt =====
-- `strings.TrimSpace` leaves a text without white space as it is.
use Prim.Native.Char.{code}
use Prim.Native.String.{◌++◌ as append}
use Prim.Native.String.append.{cons, nil}
use cross_border_logistics.Prelude.{String, Bool, true, not, ◌&&◌, ◌≡◌, refl, arith, ◌∙◌, ap}
use cross_border_logistics.Go.{is_space, trim_left, trim_right, trim_space}

-- No character is white space.
unfoldable pub unspaced : String → Bool
unspaced String.[] = true
unspaced (String.◌∷◌ c s) = not (is_space (code c)) && unspaced s

pub unspaced-append :
    (s t : String) → unspaced s ≡ true → unspaced t ≡ true → unspaced (append s t) ≡ true
unfolding unspaced
unspaced-append String.[] t h k = rw nil k
unspaced-append (String.◌∷◌ c s) t h k = rw cons (ground (arith, unspaced-append s t))

trim_left-unspaced : (s : String) → unspaced s ≡ true → trim_left s ≡ s
unfolding unspaced trim_left
trim_left-unspaced String.[] h = refl
trim_left-unspaced (String.◌∷◌ c s) h = ground arith

trim_right-unspaced : (s : String) → unspaced s ≡ true → trim_right s ≡ s
unfolding unspaced trim_right
trim_right-unspaced String.[] h = refl
trim_right-unspaced (String.◌∷◌ c s) h = ground (arith, trim_right-unspaced s)

pub trim_space-unspaced : (s : String) → unspaced s ≡ true → trim_space s ≡ s
unfolding trim_space
trim_space-unspaced s h = ap trim_right (trim_left-unspaced s h) ∙ trim_right-unspaced s h
