-- ===== src/Adapters/Board/Concurrency.antt =====
-- drizzle-work-item-repository.ts: claimers at work at the same time on one table. A claim is two
-- steps, since other connections run between them: the `select ... for update skip locked`, which
-- locks the row that it returns, and the `update` with the commit, which releases it. A transaction
-- may also roll back. Between these, items are published under fresh ids, and items that are not
-- open are saved; a save waits for a lock on its row.
use mathlib.Core.List.{Memᴰ}
use workspace_os.Base.{
  ℕ, String, Bool, true, false, not, ◌&&◌, ◌||◌, List, ◌∷◌, [], Option, none, some, ◌==◌, ◌≡◌, refl,
  arith, Bool-cases, inl, inr, ◌⊎◌, ap, ◌∙◌, eq_iff, eq_refl,
}
use workspace_os.Base.Sets.{has, without, IsDistinct, has-without}
use workspace_os.Core.Member.{Member}
use workspace_os.Core.WorkItem.{WorkItem, claimed, is_open}
use workspace_os.Adapters.Board.{Row, upsert, find_row, is_candidate, select_candidate, update_row}
use workspace_os.Adapters.Board.Order.{first_row}
use workspace_os.Adapters.Board.Claims.{candidate_parts}

-- The table, the ids that open transactions hold, and the ids that committed claims handed out, the
-- latest first.
pub record Shared : Type 0 where
  pub rows : List Row
  pub locked : List String
  pub handed_out : List String

pub data Step (s : Shared) : Shared → Type 0 where
  select :
      (m : Member) (row : Row)
      → select_candidate m s.locked s.rows ≡ some row
      → Step s (record s { locked = row.id ∷ s.locked })
  commit :
      (m : Member) (id : String)
      → has s.locked id ≡ true
      → Step s (record {
        rows = update_row id claimed (some m.id) s.rows;
        locked = without s.locked id;
        handed_out = id ∷ s.handed_out;
      })
  roll_back : (id : String) → Step s (record s { locked = without s.locked id })
  publish :
      (i : WorkItem) (now : ℕ)
      → find_row i.id s.rows ≡ none
      → Step s (record s { rows = upsert i now s.rows })
  progress :
      (i : WorkItem) (now : ℕ)
      → has s.locked i.id ≡ false
      → is_open i.state ≡ false
      → Step s (record s { rows = upsert i now s.rows })

pub data Reach (s : Shared) : Shared → Type 0 where
  here : Reach s s
  next : {t u : Shared} → Reach s t → Step t u → Reach s u

-- Some row has the id, and no row with the id is open.
abbrev pub is_taken : String → List Row → Bool
is_taken id [] = true
is_taken id (row ∷ rows) = (not (row.id == id) || not (is_open row.state)) && is_taken id rows

abbrev is_known : String → List Row → Bool
is_known id [] = false
is_known id (row ∷ rows) = row.id == id || is_known id rows

pub record IsSound (s : Shared) : Type 0 where
  pub once : IsDistinct s.handed_out
  pub taken : (id : String) → has s.handed_out id ≡ true → is_taken id s.rows ≡ true
  pub known : (id : String) → has s.handed_out id ≡ true → is_known id s.rows ≡ true
  pub apart : (id : String) → has s.locked id ≡ true → has s.handed_out id ≡ false
  pub locked_known : (id : String) → has s.locked id ≡ true → is_known id s.rows ≡ true

unknown_of_none :
    (id : String) (rows : List Row) → find_row id rows ≡ none → is_known id rows ≡ false
unfolding find_row
unknown_of_none id [] h = refl
unknown_of_none id (row ∷ rows) h = ground (arith, unknown_of_none id rows)

known_of_mem : (row : Row) (rows : List Row) → Memᴰ row rows → is_known row.id rows ≡ true
known_of_mem row [] m = elim m [ ]
known_of_mem row (r ∷ rows) (Memᴰ.head e) = rw (← e) (rw (eq_refl row.id))
known_of_mem row (r ∷ rows) (Memᴰ.tail m) = ground (arith, known_of_mem row rows m)

open_not_taken :
    (row : Row) (rows : List Row)
    → Memᴰ row rows
    → is_open row.state ≡ true
    → is_taken row.id rows ≡ false
open_not_taken row [] m h = elim m [ ]
open_not_taken row (r ∷ rows) (Memᴰ.head e) h = rw (← e) (rw (eq_refl row.id, h))
open_not_taken row (r ∷ rows) (Memᴰ.tail m) h = ground (arith, open_not_taken row rows m h)

known-update :
    (id : String) (m : Option String) (other : String) (rows : List Row)
    → is_known other (update_row id claimed m rows) ≡ is_known other rows
unfolding update_row
known-update id m other [] = refl
known-update id m other (row ∷ rows) = ground (arith, known-update id m other rows)

taken-update :
    (id : String) (m : Option String) (other : String) (rows : List Row)
    → (id ≡ other) ⊎ (is_taken other rows ≡ true)
    → is_taken other (update_row id claimed m rows) ≡ true
unfolding update_row
taken-update id m other [] h = refl
taken-update id m other (row ∷ rows) h =
    ground (arith, taken-update id m other rows, eq_iff row.id id, eq_iff row.id other)

known-upsert :
    (i : WorkItem) (now : ℕ) (id : String) (rows : List Row)
    → is_known id rows ≡ true
    → is_known id (upsert i now rows) ≡ true
unfolding upsert
known-upsert i now id [] h = cc h
known-upsert i now id (row ∷ rows) h =
    ground (arith, known-upsert i now id rows, eq_iff row.id i.id)

-- A save leaves the taken ids taken if the item is not open or has another id.
taken-upsert :
    (i : WorkItem) (now : ℕ) (id : String) (rows : List Row)
    → (is_open i.state ≡ false) ⊎ ((i.id == id) ≡ false)
    → is_taken id rows ≡ true
    → is_taken id (upsert i now rows) ≡ true
unfolding upsert
taken-upsert i now id [] h k = ground arith
taken-upsert i now id (row ∷ rows) h k =
    ground (arith, taken-upsert i now id rows, eq_iff row.id i.id)

open_not_handed_out :
    (s : Shared) (m : Member) (row : Row)
    → IsSound s
    → select_candidate m s.locked s.rows ≡ some row
    → (has s.handed_out row.id ≡ false) × (is_known row.id s.rows ≡ true)
unfolding select_candidate
open_not_handed_out s m row v h =
    let (listed, passes, first) = first_row (is_candidate m s.locked) row s.rows h in
    let opens : is_open row.state ≡ true = ap is_open (candidate_parts m s.locked row passes).0 in
    (
      elim (Bool-cases (has s.handed_out row.id)) [
        | inl handed ↦ cc (v.taken row.id handed, open_not_taken row s.rows listed opens)
        | inr free ↦ free
      ],
      known_of_mem row s.rows listed,
    )

other_of_known :
    (i : WorkItem) (id : String) (rows : List Row)
    → find_row i.id rows ≡ none
    → is_known id rows ≡ true
    → (i.id == id) ≡ false
other_of_known i id rows h k = ground (arith, unknown_of_none i.id rows h, eq_iff i.id id, k)

Step-IsSound : {s t : Shared} → Step s t → IsSound s → IsSound t
unfolding has
Step-IsSound {s} (select m row h) v =
    let (free, listed) = open_not_handed_out s m row v h in
    record {
      once = v.once;
      taken = v.taken;
      known = v.known;
      apart = λ id k. ground (arith, eq_iff row.id id, v.apart id, free, k);
      locked_known = λ id k. ground (arith, eq_iff row.id id, v.locked_known id, listed, k);
    }
Step-IsSound {s} (commit m id h) v = record {
  once = (v.apart id h, v.once);
  taken = λ other k.
      taken-update id (some m.id) other s.rows (ground (arith, eq_iff id other, v.taken other, k));
  known = λ other k.
      known-update id (some m.id) other s.rows
      ∙ ground (arith, eq_iff id other, v.known other, v.locked_known id h, k);
  apart =
      λ other k. ground (arith, has-without s.locked id other, v.apart other, eq_iff id other, k);
  locked_known = λ other k.
      known-update id (some m.id) other s.rows
      ∙ ground (arith, has-without s.locked id other, v.locked_known other, k);
}
Step-IsSound {s} (roll_back id) v = record {
  once = v.once;
  taken = v.taken;
  known = v.known;
  apart = λ other k. v.apart other (ground (arith, has-without s.locked id other, k));
  locked_known = λ other k. v.locked_known other (ground (arith, has-without s.locked id other, k));
}
Step-IsSound {s} (publish i now h) v = record {
  once = v.once;
  taken = λ id k.
      taken-upsert i now id s.rows (inr (other_of_known i id s.rows h (v.known id k)))
        (v.taken id k);
  known = λ id k. known-upsert i now id s.rows (v.known id k);
  apart = v.apart;
  locked_known = λ id k. known-upsert i now id s.rows (v.locked_known id k);
}
Step-IsSound {s} (progress i now h closed) v = record {
  once = v.once;
  taken = λ id k. taken-upsert i now id s.rows (inl closed) (v.taken id k);
  known = λ id k. known-upsert i now id s.rows (v.known id k);
  apart = v.apart;
  locked_known = λ id k. known-upsert i now id s.rows (v.locked_known id k);
}

Reach-IsSound : {s t : Shared} → Reach s t → IsSound s → IsSound t
Reach-IsSound here v = v
Reach-IsSound (next r st) v = Step-IsSound st (Reach-IsSound r v)

start : (s : Shared) → s.locked ≡ [] → s.handed_out ≡ [] → IsSound s
unfolding has
start s no_locks no_claims = record {
  once = rw no_claims tt;
  taken = λ id k. cc (rw no_claims at k);
  known = λ id k. cc (rw no_claims at k);
  apart = λ id k. cc (k, no_locks);
  locked_known = λ id k. cc (rw no_locks at k);
}

-- However the steps of any number of claimers, publishers and workers interleave, no item is handed
-- out twice: from a table with no open transaction and no claim so far, the ids of the committed
-- claims are all different.
pub exactly_once :
    {s t : Shared} → Reach s t → s.locked ≡ [] → s.handed_out ≡ [] → IsDistinct t.handed_out
exactly_once {s} r no_locks no_claims = (Reach-IsSound r (start s no_locks no_claims)).once
