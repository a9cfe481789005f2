-- ===== src/Stable/Consistent.antt =====
-- Every change of the tables keeps the rooms consistent: no room has more players than it admits, and
-- a terminated room has none.
use back_end_doc.Common.{
  ℕ, ◌≡◌, refl, sym, subst, ◌==◌, arith, if◌then◌else◌, Bool, Bytes, Outcome, Option-cases, inl,
  inr,
}
use mathlib.Core.Option
use back_end_doc.Db.{Db, User}
use back_end_doc.Db.Query.{find_room, update_room, find_room-update_room}
use back_end_doc.GameRepository.{GameResult, playing}
use back_end_doc.GameRepository.Outcomes
use back_end_doc.GameRepository.Outcomes.{Started, Ended, with_game}
use back_end_doc.RoomRepository.Consistent.{
  IsConsistent, Created-IsConsistent, Added-IsConsistent, Removed-IsConsistent,
}
use back_end_doc.Stable.{IsStable}
use back_end_doc.UserRepository.Outcomes as Accounts
use back_end_doc.UserRepository.Outcomes.{Inserted, Changed}
use back_end_doc.World.{Engine}

with_game-IsConsistent :
    (e : Engine) (r m : ℕ) (db : Db) → IsConsistent db → IsConsistent (with_game e r m db)
with_game-IsConsistent e r m db c = record {
  capacity = λ j s f. elim (Option-cases (find_room j db.rooms)) [
    | inl missing ↦ absurd (ground (arith, law j))
    | inr (old, known) ↦ ground (arith, law j, c.capacity j old known)
  ];
  empty = λ j s f z. elim (Option-cases (find_room j db.rooms)) [
    | inl missing ↦ absurd (ground (arith, law j))
    | inr (old, known) ↦ ground (arith, law j, c.empty j old known)
  ];
}
  where
    law :
        (j : ℕ)
        → find_room j (update_room r playing db.rooms)
          ≡ (if j == r then Option.map playing (find_room j db.rooms) else find_room j db.rooms)
    law j = find_room-update_room r j playing db.rooms (λ x. refl)

Started-IsConsistent :
    {e : Engine} {db after : Db} {o : Outcome GameResult}
    → IsConsistent db
    → Started e db o after
    → IsConsistent after
Started-IsConsistent c Outcomes.raised = c
Started-IsConsistent c Outcomes.refused = c
Started-IsConsistent {e} {db} c (Outcomes.started r m row hit eo ea) =
    subst IsConsistent (sym ea) (with_game-IsConsistent e r m db c)

Ended-IsConsistent :
    {id : ℕ} {db after : Db} {o : Outcome GameResult}
    → IsConsistent db
    → Ended id db o after
    → IsConsistent after
Ended-IsConsistent c Outcomes.raised = c
Ended-IsConsistent c Outcomes.refused = c
Ended-IsConsistent c (Outcomes.ended g hit eo ea) =
    subst IsConsistent (sym ea) (record { capacity = c.capacity; empty = c.empty })

Inserted-IsConsistent :
    {e : Engine} {name hash : Bytes} {now : ℕ} {db after : Db} {o : Outcome ℕ}
    → IsConsistent db
    → Inserted e name hash now db o after
    → IsConsistent after
Inserted-IsConsistent c Accounts.raised = c
Inserted-IsConsistent c Accounts.refused = c
Inserted-IsConsistent c (Accounts.inserted free eo ea) =
    subst IsConsistent (sym ea) (record { capacity = c.capacity; empty = c.empty })

Changed-IsConsistent :
    {id : ℕ} {change : User → User} {db after : Db} {o : Outcome Bool}
    → IsConsistent db
    → Changed id change db o after
    → IsConsistent after
Changed-IsConsistent c Accounts.raised = c
Changed-IsConsistent c Accounts.refused = c
Changed-IsConsistent c (Accounts.changed eo ea) =
    subst IsConsistent (sym ea) (record { capacity = c.capacity; empty = c.empty })

pub consistent : IsStable IsConsistent
consistent = record {
  rooms_open = λ db after host max now name o c m h. Created-IsConsistent c m h;
  players_join = λ db after r u o c h. Added-IsConsistent c h;
  players_leave = λ db after u o c h. Removed-IsConsistent c h;
  games_start = λ e db after o c h. Started-IsConsistent c h;
  games_end = λ id db after o c h. Ended-IsConsistent c h;
  accounts_open = λ e name hash now db after o c h. Inserted-IsConsistent c h;
  users_log_in = λ id now db after o c h. Changed-IsConsistent c h;
  users_rename = λ id nick db after o c h. Changed-IsConsistent c h;
}
