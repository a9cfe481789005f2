-- ===== src/RoomRepository/Listing.antt =====
-- The list of open rooms (`findAllOpen` of MatchingServer/src/repository/room_repository.cpp).
use back_end_doc.Common.{
  ℕ, ◌≤◌, ◌≡◌, refl, List, [], ◌∷◌, leb, if◌then◌else◌, arith, Bool-cases, inl, inr,
}
use mathlib.Core.List.{Perm}
use mathlib.Core.List.Perm
use back_end_doc.Db.{Room, is_terminated}
use back_end_doc.Db.Transaction.{query, exec, pure, ◌>>=◌}
use back_end_doc.World.{World}
use back_end_doc.World.Healthy.{IsHealthy, commit-Runs}
use back_end_doc.RoomRepository.{find_all_open, open_rooms, insert_newest, read_listings}

-- The rooms that are not terminated, in the order of the table.
abbrev pub are_open : List Room → List Room
are_open [] = []
are_open (r ∷ rs) = if is_terminated r.status then are_open rs else r ∷ are_open rs

-- Each room is at least as new as those behind it.
abbrev pub AtMost : ℕ → List Room → Type 0
AtMost t [] = Unit
AtMost t (r ∷ rs) = (r.created_at ≤ t) × AtMost t rs

abbrev pub NewestFirst : List Room → Type 0
NewestFirst [] = Unit
NewestFirst (r ∷ rs) = AtMost r.created_at rs × NewestFirst rs

AtMost-le : (t t' : ℕ) (rs : List Room) → t ≤ t' → AtMost t rs → AtMost t' rs
AtMost-le t t' [] h a = tt
AtMost-le t t' (r ∷ rs) h a = (omega (arith, a.0), AtMost-le t t' rs h a.1)

insert-AtMost :
    (t : ℕ) (r : Room) (rs : List Room)
    → r.created_at ≤ t
    → AtMost t rs
    → AtMost t (insert_newest r rs)
unfolding insert_newest
insert-AtMost t r [] h a = (h, tt)
insert-AtMost t r (s ∷ rs) h a = elim (Bool-cases (leb s.created_at r.created_at)) [
  | inl first ↦ rw first (h, a)
  | inr later ↦ rw later (a.0, insert-AtMost t r rs h a.1)
]

insert-NewestFirst : (r : Room) (rs : List Room) → NewestFirst rs → NewestFirst (insert_newest r rs)
unfolding insert_newest
insert-NewestFirst r [] n = (tt, tt)
insert-NewestFirst r (s ∷ rs) n = elim (Bool-cases (leb s.created_at r.created_at)) [
  | inl first ↦
      rw first ((ground arith, AtMost-le s.created_at r.created_at rs (ground arith) n.0), n)
  | inr later ↦
      rw later (insert-AtMost s.created_at r rs (ground arith) n.0, insert-NewestFirst r rs n.1)
]

insert-Perm : (r : Room) (rs : List Room) → Perm (insert_newest r rs) (r ∷ rs)
unfolding insert_newest
insert-Perm r [] = Perm.refl (r ∷ [])
insert-Perm r (s ∷ rs) = elim (Bool-cases (leb s.created_at r.created_at)) [
  | inl first ↦ rw first (Perm.refl (r ∷ s ∷ rs))
  | inr later ↦ rw later (Perm.trans (Perm.cons s (insert-Perm r rs)) (Perm.swap r s rs))
]

open_rooms-NewestFirst : (rs : List Room) → NewestFirst (open_rooms rs)
unfolding open_rooms
open_rooms-NewestFirst [] = tt
open_rooms-NewestFirst (r ∷ rs) = elim (Bool-cases (is_terminated r.status)) [
  | inl over ↦ rw over (open_rooms-NewestFirst rs)
  | inr open_ ↦ rw open_ (insert-NewestFirst r (open_rooms rs) (open_rooms-NewestFirst rs))
]

open_rooms-Perm : (rs : List Room) → Perm (open_rooms rs) (are_open rs)
unfolding open_rooms
open_rooms-Perm [] = Perm.refl []
open_rooms-Perm (r ∷ rs) = elim (Bool-cases (is_terminated r.status)) [
  | inl over ↦ rw over (open_rooms-Perm rs)
  | inr open_ ↦
      rw open_ (Perm.trans (insert-Perm r (open_rooms rs)) (Perm.cons r (open_rooms-Perm rs)))
]

-- Where no statement throws and every connection can be made, `findAllOpen` reads rows that are a
-- permutation of the rooms that are not terminated, the newest first.
pub find_all_open-Lists :
    (w : World)
    → IsHealthy w
    → ((find_all_open w).0 ≡ read_listings (open_rooms w.db.rooms))
      × NewestFirst (open_rooms w.db.rooms)
      × Perm (open_rooms w.db.rooms) (are_open w.db.rooms)
unfolding find_all_open query exec pure ◌>>=◌
find_all_open-Lists w h = (
  (commit-Runs [] _ w h (read_listings (open_rooms w.db.rooms)) w.db refl).outcome,
  open_rooms-NewestFirst w.db.rooms,
  open_rooms-Perm w.db.rooms,
)
