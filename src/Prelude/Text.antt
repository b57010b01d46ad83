-- ===== src/Prelude/Text.antt =====
-- Python's `str.strip` and `str.lower`, on code points.
-- `lower` is the ASCII case mapping: every other code point is left as it is.
use Prim.Native.Char.{code}
use Prim.Native.Nat.{ℕ, ◌+◌}
use Prim.Native.String.{String}
use mathlib.Core.Path.{◌≡◌, refl}
use mathlib.Core.Bool.{Bool, true, false, ◌&&◌, ◌||◌}
use mathlib.Core.List.{List, [], ◌∷◌, ◌++◌, map, reverse}
use mathlib.Core.Option.{Option, none, some}
use text.Mathlib.Text.{◌==◌}
use lol_predictor.Prelude.Tests.{leb, eqb, eqb_iff, both, if◌then◌else◌}

abbrev pub codes : String → List ℕ
codes String.[] = []
codes (String.◌∷◌ c s) = code c ∷ codes s

unfoldable pub text_eq : List ℕ → List ℕ → Bool
text_eq [] [] = true
text_eq (a ∷ s) (b ∷ t) = eqb a b && text_eq s t
text_eq _ _ = false

pub text_eq-eq : (s t : List ℕ) → text_eq s t ≡ true → s ≡ t
unfolding text_eq
text_eq-eq [] [] h = refl
text_eq-eq (a ∷ s) [] h = cc
text_eq-eq [] (b ∷ t) h = cc
text_eq-eq (a ∷ s) (b ∷ t) h =
    let (head, tail) = both {a = eqb a b} h in
    let same = text_eq-eq s t tail in rw ((eqb_iff a b).0 head, same) refl

pub text_eq_self : (s : List ℕ) → text_eq s s ≡ true
unfolding text_eq
text_eq_self [] = refl
text_eq_self (a ∷ s) = rw ((eqb_iff a a).1 refl) (text_eq_self s)

abbrev between : ℕ → ℕ → ℕ → Bool
between lo hi c = leb lo c && leb c hi

-- the code points for which `str.isspace` holds
unfoldable pub is_space : ℕ → Bool
is_space c =
    between 9 13 c
    || between 28 32 c
    || eqb c 133
    || eqb c 160
    || eqb c 0x1680
    || between 0x2000 0x200a c
    || between 0x2028 0x2029 c
    || eqb c 0x202f
    || eqb c 0x205f
    || eqb c 0x3000

strip_left : List ℕ → List ℕ
unfolding is_space
strip_left [] = []
strip_left (c ∷ s) = let rest = strip_left s in if is_space c then rest else c ∷ s

unfoldable pub strip : List ℕ → List ℕ
unfolding strip_left
strip s = reverse (strip_left (reverse (strip_left s)))

lower_code : ℕ → ℕ
lower_code c = if between 65 90 c then c + 32 else c

unfoldable pub lower : List ℕ → List ℕ
unfolding lower_code
lower = map lower_code

-- `not s`: the empty text is falsy
abbrev pub is_empty : List ℕ → Bool
is_empty [] = true
is_empty (_ ∷ _) = false

abbrev pub truthy : String → Bool
truthy String.[] = false
truthy (String.◌∷◌ _ _) = true

-- `isinstance(x, str) and x`, and `x.get(k)` used as a condition
abbrev pub present : Option String → Bool
present none = false
present (some s) = truthy s

-- `" ".join(s.split())`: the pieces between blanks, with one blank between them
abbrev flush : List ℕ → List (List ℕ) → List (List ℕ)
flush [] ws = ws
flush (c ∷ s) ws = reverse (c ∷ s) ∷ ws

split_from : List ℕ → List ℕ → List (List ℕ)
unfolding is_space
split_from piece [] = flush piece []
split_from piece (c ∷ s) = elim (is_space c) [
  | true ↦ flush piece (split_from [] s)
  | false ↦ split_from (c ∷ piece) s
]

abbrev join_blank : List (List ℕ) → List ℕ
join_blank [] = []
join_blank (w ∷ []) = w
join_blank (w ∷ v ∷ ws) = w ++ 32 ∷ join_blank (v ∷ ws)

unfoldable pub single_blanks : List ℕ → List ℕ
unfolding split_from
single_blanks s = join_blank (split_from [] s)

-- Unicode's tables: `unicodedata.normalize("NFC", s)` and `s.casefold()`
pub record Unicode : Type 0 where
  pub nfc : List ℕ → List ℕ
  pub casefold : List ℕ → List ℕ

-- for tests, on ASCII
abbrev pub ascii : Unicode
ascii = record { nfc = λ s. s; casefold = lower }

-- `key in texts`
abbrev pub is_in : String → List String → Bool
is_in key [] = false
is_in key (k ∷ ks) = k == key || is_in key ks

-- `s + t`
abbrev pub append_text : String → String → String
append_text String.[] t = t
append_text (String.◌∷◌ c s) t = String.◌∷◌ c (append_text s t)

-- `s.startswith(p)`, and `p in s`
abbrev pub starts_with : List ℕ → List ℕ → Bool
starts_with [] s = true
starts_with (a ∷ p) [] = false
starts_with (a ∷ p) (b ∷ s) = eqb a b && starts_with p s

abbrev pub occurs_in : List ℕ → List ℕ → Bool
occurs_in p [] = starts_with p []
occurs_in p (b ∷ s) = starts_with p (b ∷ s) || occurs_in p s
