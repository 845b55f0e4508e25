-- ===== src/Logger/Leaks.antt =====
-- Which log files stay open (logger.go).
use leng.Prelude.{
  ℕ, zero, suc, ◌+◌, ◌≤◌, ◌≡◌, Bool, true, not, List, nat_beq, any, All, count, comparable_text,
}
use leng.Logger.{FileConfig}
use leng.Logger.Files
use leng.Logger.Files.{Disk, Handles, LoggingState, FileError, is_open}

abbrev pub among : ℕ → List ℕ → Bool
among k l = any (λ j. nat_beq j k) l

module _ (disk : Disk) where
  -- Every file of a list can be created and opened.
  abbrev pub CanOpen : List FileConfig → Type 0
  CanOpen = All (λ f. (disk.can_create f.name ≡ true) × (disk.can_open f.name ≡ true))

  -- At least `a` and at most `b` more open files meet the test.
  abbrev Adds : (ℕ → Bool) → ℕ → ℕ → Handles → Handles → Type 0
  Adds p a b w w' =
      (a + count p w.opened ≤ count p w'.opened)
      × (count p w'.opened ≤ b + count p w.opened)
      × (w.next ≤ w'.next)

  -- Signal after signal.
  unfoldable pub reopens : ℕ → LoggingState → Handles → Handles
  reopens zero s w = w
  reopens (suc n) s w = reopens n s (Files.reopen disk s w).1

  -- The open files that the state does not know.
  abbrev pub unknown : LoggingState → Handles → ℕ
  unknown s w = count (λ k. not (among k s.files)) w.opened
