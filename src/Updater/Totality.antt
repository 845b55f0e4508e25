-- ===== src/Updater/Totality.antt =====
-- No line of a hosts file makes the parser of updater.go read past the fields of the line.
use leng.Prelude.{
  ◌≡◌, refl, sym, ap, ◌∙◌, Bool, Option, none, some, List, [], ◌∷◌, ok, GoMap, Text,
  comparable_text,
}
use leng.BlockCache.{MemoryBlockCache, Matchers}
use leng.Updater
use leng.Updater.{add_name}
use leng.Updater.Lines
use leng.Updater.Lines.{fields, before_hash, trim_space, fields-trim_space, fields-trimmed}

abbrev pub second_or_first : List Text → Option Text
second_or_first [] = none
second_or_first (f ∷ []) = some f
second_or_first (f ∷ f' ∷ rest) = some f'

-- The name that a line of a hosts file gives, if any: of the part before a #, the second field, or
-- the only one.
unfoldable pub line_name : Text → Option Text
line_name line = second_or_first (fields (before_hash line))

fields_nil : fields [] ≡ []
unfolding fields Lines.split_fields
fields_nil = refl

fields_as : (s t : Text) → trim_space s ≡ t → fields t ≡ fields s
fields_as s t e = ap fields (sym e) ∙ fields-trim_space s

module _ (m : Matchers) (whitelist : GoMap Text Bool) where
  unfoldable pub add_named : Option Text → MemoryBlockCache → MemoryBlockCache
  add_named none c = c
  add_named (some name) c = add_name m whitelist name c

  -- The names of the lines, one after another.
  unfoldable pub add_all : List Text → MemoryBlockCache → MemoryBlockCache
  add_all [] c = c
  add_all (line ∷ lines) c = add_all lines (add_named (line_name line) c)

  name_field-named :
      (f : Text) (fs : List Text) (c : MemoryBlockCache)
      → Updater.and_then (Updater.name_field (f ∷ fs)) (λ name. ok (add_name m whitelist name c))
        ≡ ok (add_named (second_or_first (f ∷ fs)) c)
  unfolding Updater.name_field add_named
  name_field-named f [] c = refl
  name_field-named f (f' ∷ fs) c = refl

  add_trimmed_lem :
      (s t : Text) (c : MemoryBlockCache)
      → trim_space s ≡ t
      → Updater.add_trimmed m whitelist t c ≡ ok (add_named (second_or_first (fields s)) c)
  unfolding Updater.add_trimmed add_named
  add_trimmed_lem s [] c e = rw (sym (fields_as s _ e), fields_nil) refl
  add_trimmed_lem s (b ∷ t) c e =
      let (f, fs, p) = fields-trimmed s b t e in
      rw (sym (fields_as s _ e), p) (name_field-named f fs c)

  -- A scan over lines never fails: it adds, one after another, the names that the lines give.
  pub add_lines_lem :
      (lines : List Text) (c : MemoryBlockCache)
      → Updater.add_lines m whitelist lines c ≡ ok (add_all lines c)
  unfolding Updater.add_lines add_all line_name
  add_lines_lem [] c = refl
  add_lines_lem (line ∷ lines) c =
      rw (add_trimmed_lem (before_hash line) (trim_space (before_hash line)) c refl)
        (add_lines_lem lines (add_named (line_name line) c))
