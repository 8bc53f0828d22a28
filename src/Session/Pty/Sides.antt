-- ===== src/Session/Pty/Sides.antt =====
-- Tables of open descriptors, with what closing and duplicating do to them.
use rootsh.Base.{
  ℕ, ◌≤◌, ◌≡◌, refl, ap, ◌∙◌, Bool, true, false, Option, none, some, List, [], ◌∷◌, ◌==◌,
  if◌then◌else◌, ==_iff, arith,
}

-- What a descriptor is of: one of the two sides of the pty pair, or something that was open before.
pub data Side : Type 0 where
  outer master_side slave_side : Side

-- The open descriptors, each with what it is of.
abbrev pub Table : Type 0
Table = List (ℕ × Side)

abbrev pub remove : ℕ → Table → Table
remove n [] = []
remove n ((m, side) ∷ fds) = if m == n then fds else (m, side) ∷ remove n fds

abbrev find_side : ℕ → Table → Option Side
find_side n [] = none
find_side n ((m, side) ∷ fds) = if m == n then some side else find_side n fds

abbrev pub opened_as : Side → Option ℕ → Table → Table
opened_as side none fds = fds
opened_as side (some fd) fds = (fd, side) ∷ fds

-- `dup2(old, new)`: what `new` was of is closed; a descriptor that is not open is not duplicated.
abbrev pub duplicated : ℕ → ℕ → Table → Table
duplicated old new fds = elim (find_side old fds) [
  | none ↦ fds
  | some side ↦ (new, side) ∷ remove new fds
]

pub remove_first : (n : ℕ) (side : Side) (fds : Table) → remove n ((n, side) ∷ fds) ≡ fds
remove_first n side fds = rw ((==_iff n n).1 refl) refl

pub remove_second :
    (m n : ℕ) (first second : Side) (fds : Table)
    → (n == m) ≡ false
    → remove m ((n, first) ∷ (m, second) ∷ fds) ≡ (n, first) ∷ fds
remove_second m n first second fds apart = rw (apart, (==_iff m m).1 refl) refl

-- The three standard descriptors of the child are the slave.
abbrev pub standard : Table → Table
standard fds =
    (2, slave_side) ∷ (1, slave_side) ∷ (0, slave_side) ∷ remove 2 (remove 1 (remove 0 fds))

found_first : (n : ℕ) (side : Side) (fds : Table) → find_side n ((n, side) ∷ fds) ≡ some side
found_first n side fds = rw ((==_iff n n).1 refl) refl

module _ (slave : ℕ) (fds : Table) (above : 3 ≤ slave) where
  abbrev own : ℕ × Side
  own = (slave, slave_side)

  duplicated-in : duplicated slave 0 (own ∷ fds) ≡ (0, slave_side) ∷ own ∷ remove 0 fds
  duplicated-in =
      let apart : (slave == 0) ≡ false = ground arith in
      rw (duplicated, found_first slave slave_side fds, remove, apart) refl

  duplicated-out :
      duplicated slave 1 ((0, slave_side) ∷ own ∷ fds)
      ≡ (1, slave_side) ∷ (0, slave_side) ∷ own ∷ remove 1 fds
  duplicated-out =
      let apart : (slave == 1) ≡ false = ground arith in
      let behind : (0 == slave) ≡ false = ground arith in
      rw (duplicated, find_side, behind, (==_iff slave slave).1 refl, remove, apart) refl

  duplicated-err :
      duplicated slave 2 ((1, slave_side) ∷ (0, slave_side) ∷ own ∷ fds)
      ≡ (2, slave_side) ∷ (1, slave_side) ∷ (0, slave_side) ∷ own ∷ remove 2 fds
  duplicated-err = ground arith

  removed-own :
      remove slave ((2, slave_side) ∷ (1, slave_side) ∷ (0, slave_side) ∷ own ∷ fds)
      ≡ (2, slave_side) ∷ (1, slave_side) ∷ (0, slave_side) ∷ fds
  removed-own = ground arith

-- From the slave's own descriptor to the standard ones.
pub duplicated-standard :
    (slave : ℕ) (fds : Table)
    → 3 ≤ slave
    → remove slave
        (duplicated slave 2 (duplicated slave 1 (duplicated slave 0 ((slave, slave_side) ∷ fds))))
      ≡ standard fds
duplicated-standard slave fds above =
    ap (λ t. remove slave (duplicated slave 2 (duplicated slave 1 t)))
      (duplicated-in slave fds above)
    ∙ ap (λ t. remove slave (duplicated slave 2 t)) (duplicated-out slave (remove 0 fds) above)
    ∙ ap (remove slave) (duplicated-err slave (remove 1 (remove 0 fds)) above)
    ∙ removed-own slave _ above

-- The log file is closed in the child.
abbrev pub without_log : Bool → ℕ → Table → Table
without_log true log fds = remove log fds
without_log false log fds = fds
