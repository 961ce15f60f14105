-- ===== src/TerminalGateway/Offsets.antt =====
-- backend/beast_market/pipeline.py: `next_committed_offset`, and where it lies among the offsets of the records.
use lynx_monitor.Prelude.{
  ℕ, ◌+◌, ◌≤◌, ◌<◌, ◌≡◌, ◌⊎◌, inl, inr, refl, Option, none, some, List, [], ◌∷◌, length, max, arith,
  All, subst, Bool-cases, leb,
}
use lynx_monitor.Consumer.{PolledRecord}
use lynx_monitor.TerminalGateway.{later_offset, last_offset, next_committed_offset}

-- A record with the offset
pub data HasOffset (n : ℕ) : List PolledRecord → Type 0 where
  here : (r : PolledRecord) (rs : List PolledRecord) → r.offset ≡ some n → HasOffset n (r ∷ rs)
  there : (r : PolledRecord) (rs : List PolledRecord) → HasOffset n rs → HasOffset n (r ∷ rs)

abbrev pub IsUnnumbered : PolledRecord → Type 0
IsUnnumbered r = r.offset ≡ none

abbrev pub IsBelow : ℕ → PolledRecord → Type 0
IsBelow n r = (m : ℕ) → r.offset ≡ some m → m < n

-- An offset directly behind records that were polled from an offset on: every record's offset is below it, and either
-- it follows the offset of one of the records, or no record has an offset and it is as far on as there are records.
abbrev pub IsBehind : List PolledRecord → (from : ℕ) → ℕ → Type 0
IsBehind records from n =
    All (IsBelow n) records
    × (((m : ℕ) × (HasOffset m records × (n ≡ m + 1)))
        ⊎ (All IsUnnumbered records × (n ≡ from + length records)))

IsBelow-le : (n k : ℕ) (rs : List PolledRecord) → n ≤ k → All (IsBelow n) rs → All (IsBelow k) rs
IsBelow-le n k [] le h = tt
IsBelow-le n k (r ∷ rs) le h = (λ m e. omega (arith, le, h.0 m e), IsBelow-le n k rs le h.1)

unnumbered-IsBelow : (n : ℕ) (rs : List PolledRecord) → All IsUnnumbered rs → All (IsBelow n) rs
unnumbered-IsBelow n [] h = tt
unnumbered-IsBelow n (r ∷ rs) h =
    (λ m e. absurd (ground (arith, h.0, e)), unnumbered-IsBelow n rs h.1)

-- What is known of the last offset
abbrev IsLast : List PolledRecord → Option ℕ → Type 0
IsLast rs none = All IsUnnumbered rs
IsLast rs (some n) = All (IsBelow (n + 1)) rs × HasOffset n rs

later_offset-IsLast :
    (r : PolledRecord) (rs : List PolledRecord) (own later : Option ℕ)
    → r.offset ≡ own
    → IsLast rs later
    → IsLast (r ∷ rs) (later_offset own later)
later_offset-IsLast r rs none none e h = (e, h)
later_offset-IsLast r rs none (some m) e h =
    ((λ k q. absurd (ground (arith, e, q)), h.0), there r rs h.1)
later_offset-IsLast r rs (some n) none e h =
    ((λ k q. ground (arith, e, q), unnumbered-IsBelow (n + 1) rs h), here r rs e)
later_offset-IsLast r rs (some n) (some m) e h = (
  ((λ k q. ground (arith, e, q)), IsBelow-le (m + 1) (max n m + 1) rs (omega arith) h.0),
  elim (Bool-cases (leb n m)) [
    | inl le ↦
        let same : m ≡ max n m = ground (arith, le) in
        subst (λ k. HasOffset k (r ∷ rs)) same (there r rs h.1)
    | inr gt ↦
        let same : n ≡ max n m = ground (arith, gt) in
        subst (λ k. HasOffset k (r ∷ rs)) same (here r rs e)
  ],
)

last_offset-IsLast : (rs : List PolledRecord) → IsLast rs (last_offset rs)
last_offset-IsLast [] = tt
last_offset-IsLast (r ∷ rs) =
    later_offset-IsLast r rs (r.offset) (last_offset rs) refl (last_offset-IsLast rs)

following-IsBehind :
    (records : List PolledRecord) (from : ℕ) (last : Option ℕ)
    → IsLast records last
    → IsBehind records from (elim last [ none ↦ from + length records | some n ↦ n + 1 ])
following-IsBehind records from none h =
    (unnumbered-IsBelow (from + length records) records h, inr (h, refl))
following-IsBehind records from (some n) h = (h.0, inl (n, (h.1, refl)))

-- The next offset is behind the records.
pub next_committed_offset-IsBehind :
    (records : List PolledRecord) (from : ℕ)
    → IsBehind records from (next_committed_offset records from)
unfolding next_committed_offset
next_committed_offset-IsBehind records from =
    following-IsBehind records from (last_offset records) (last_offset-IsLast records)
