-- ===== src/Updater/Lines.antt =====
-- The text of one line of a hosts file (updater.go, parseHostFile), and what the package `strings`
-- does with it, on ASCII.
use leng.Prelude.{
  ℕ, ◌≡◌, refl, sym, ◌∙◌, Bool, true, false, ◌&&◌, ◌||◌, List, [], ◌∷◌, arith, leb, nat_beq,
  if◌then◌else◌, Text, comparable_text,
}

-- unicode.IsSpace below 128
unfoldable pub is_space : ℕ → Bool
is_space c = (leb 9 c && leb c 13) || nat_beq c 32

-- strings.TrimSpace
unfoldable pub trim_left : Text → Text
trim_left [] = []
trim_left (c ∷ s) = if is_space c then trim_left s else c ∷ s

abbrev pub is_empty : Text → Bool
is_empty [] = true
is_empty (c ∷ s) = false

unfoldable pub trim_right : Text → Text
trim_right [] = []
trim_right (c ∷ s) = let r = trim_right s in if is_space c && is_empty r then [] else c ∷ r

unfoldable pub trim_space : Text → Text
trim_space s = trim_right (trim_left s)

-- strings.Split(line, "#")[0]
unfoldable pub before_hash : Text → Text
before_hash [] = []
before_hash (c ∷ s) = let r = before_hash s in if nat_beq c b'#' then [] else c ∷ r

abbrev pub with_field : Text → List Text → List Text
with_field [] ws = ws
with_field (c ∷ w) ws = (c ∷ w) ∷ ws

-- The text up to the first white space, and the fields behind it.
unfoldable pub split_fields : Text → Text × List Text
split_fields [] = ([], [])
split_fields (c ∷ s) =
    let r = split_fields s in if is_space c then ([], with_field r.0 r.1) else (c ∷ r.0, r.1)

-- strings.Fields
unfoldable pub fields : Text → List Text
fields s = with_field (split_fields s).0 (split_fields s).1

-- One step: what is cut off behind `c` is `r`.
split_fields-cut :
    (b : Bool) (c : ℕ) (r s : Text)
    → split_fields r ≡ split_fields s
    → is_space c ≡ b
    → split_fields (if b && is_empty r then [] else c ∷ r) ≡ split_fields (c ∷ s)
unfolding split_fields
split_fields-cut true c [] s p e = rw (e, sym p) refl
split_fields-cut true c (d ∷ r) s p e = rw (e, sym p) refl
split_fields-cut false c r s p e = rw (e, sym p) refl

split_fields-trim_right : (s : Text) → split_fields (trim_right s) ≡ split_fields s
unfolding trim_right
split_fields-trim_right [] = refl
split_fields-trim_right (c ∷ s) =
    split_fields-cut (is_space c) c (trim_right s) s (split_fields-trim_right s) refl

fields-trim_right : (s : Text) → fields (trim_right s) ≡ fields s
unfolding fields
fields-trim_right s = rw (split_fields-trim_right s) refl

-- One step: what is left of `c ∷ s` is `t` if `c` is white space.
fields-skip :
    (b : Bool) (c : ℕ) (t s : Text)
    → fields t ≡ fields s
    → is_space c ≡ b
    → fields (if b then t else c ∷ s) ≡ fields (c ∷ s)
unfolding fields split_fields
fields-skip true c t s p e = rw e p
fields-skip false c t s p e = refl

fields-trim_left : (s : Text) → fields (trim_left s) ≡ fields s
unfolding trim_left
fields-trim_left [] = refl
fields-trim_left (c ∷ s) = fields-skip (is_space c) c (trim_left s) s (fields-trim_left s) refl

-- TrimSpace does not change the fields.
pub fields-trim_space : (s : Text) → fields (trim_space s) ≡ fields s
unfolding trim_space
fields-trim_space s = fields-trim_right (trim_left s) ∙ fields-trim_left s

trim_left-first : (s : Text) (b : ℕ) (t : Text) → trim_left s ≡ b ∷ t → is_space b ≡ false
unfolding trim_left
trim_left-first [] b t h = cc
trim_left-first (c ∷ s) b t h = ground (arith, trim_left-first s b t)

trim_right-first : (s : Text) (b : ℕ) (t : Text) → trim_right s ≡ b ∷ t → (u : Text) × (s ≡ b ∷ u)
unfolding trim_right
trim_right-first [] b t h = cc
trim_right-first (c ∷ s) b t h = (s, ground arith)

-- A trimmed line that is not empty has a field.
pub fields-trimmed :
    (s : Text) (b : ℕ) (t : Text)
    → trim_space s ≡ b ∷ t
    → (f : Text) × (fs : List Text) × (fields (b ∷ t) ≡ f ∷ fs)
unfolding trim_space fields split_fields
fields-trimmed s b t h =
    let (u, e) = trim_right-first (trim_left s) b t h in
    (b ∷ (split_fields t).0, (split_fields t).1, rw (trim_left-first s b u e) refl)
