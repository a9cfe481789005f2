-- ===== src/RoomRepository/Shown.antt =====
-- Which rows the list of rooms shows (`findAllOpen` of
-- MatchingServer/src/repository/room_repository.cpp).
use back_end_doc.Common.{
  arith, ℕ, ◌≡◌, refl, ap, subst, false, some, List, [], ◌∷◌, ◌==◌, leb, returned, Bytes, All,
  Bool-cases, inl, inr,
}
use back_end_doc.Db.{Room, is_terminated}
use back_end_doc.Db.Query.{find_room, update_room}
use back_end_doc.RoomRepository.{
  RoomListing, insert_newest, open_rooms, read_listing, read_first, read_listings,
}

-- An element with the property is in the list.
pub data Any {A : Type 0} (P : A → Type 0) : List A → Type 0 where
  first : {x : A} {xs : List A} → P x → Any P (x ∷ xs)
  later : {x : A} {xs : List A} → Any P xs → Any P (x ∷ xs)

pub Any-map :
    {A : Type 0} (P Q : A → Type 0) (xs : List A) → ((x : A) → P x → Q x) → Any P xs → Any Q xs
Any-map P Q [] f a = elim a [ ]
Any-map P Q (x ∷ xs) f (first p) = first (f x p)
Any-map P Q (x ∷ xs) f (later a) = later (Any-map P Q xs f a)

pub Any-All :
    {A : Type 0} (P : A → Type 0) (x : A) (xs : List A) → Any (λ y. y ≡ x) xs → All P xs → P x
Any-All P x [] m a = elim m [ ]
Any-All P x (y ∷ ys) (first e) a = subst P e a.0
Any-All P x (y ∷ ys) (later m) a = Any-All P x ys m a.1

pub record HasAddress (r : Room) : Type 0 where
  pub ip : Bytes
  pub ip_is : r.ip_address ≡ some ip
  pub port : ℕ
  pub port_is : r.port ≡ some port

pub find_room-Any :
    (id : ℕ) (rs : List Room) (r : Room) → find_room id rs ≡ some r → Any (λ x. x ≡ r) rs
unfolding find_room
find_room-Any id [] r e = absurd (cc)
find_room-Any id (x ∷ rs) r e = elim (Bool-cases (x.room_id == id)) [
  | inl hit ↦ first (ground (arith))
  | inr miss ↦ later (find_room-Any id rs r (ground (arith)))
]

module _ (P : Room → Type 0) where
  insert-first : (r : Room) (rs : List Room) → P r → Any P (insert_newest r rs)
  unfolding insert_newest
  insert-first r [] p = first p
  insert-first r (s ∷ rs) p = elim (Bool-cases (leb s.created_at r.created_at)) [
    | inl newest ↦ rw newest (first p)
    | inr older ↦ rw older (later (insert-first r rs p))
  ]

  insert-later : (r : Room) (rs : List Room) → Any P rs → Any P (insert_newest r rs)
  unfolding insert_newest
  insert-later r [] a = elim a [ ]
  insert-later r (s ∷ rs) (first p) = elim (Bool-cases (leb s.created_at r.created_at)) [
    | inl newest ↦ rw newest (later (first p))
    | inr older ↦ rw older (first p)
  ]
  insert-later r (s ∷ rs) (later b) = elim (Bool-cases (leb s.created_at r.created_at)) [
    | inl newest ↦ rw newest (later (later b))
    | inr older ↦ rw older (later (insert-later r rs b))
  ]

  pub open_rooms-Any :
      (rs : List Room)
      → Any (λ x. P x × (is_terminated x.status ≡ false)) rs
      → Any P (open_rooms rs)
  unfolding open_rooms
  open_rooms-Any [] a = elim a [ ]
  open_rooms-Any (r ∷ rs) (first (p, open_)) = rw open_ (insert-first r (open_rooms rs) p)
  open_rooms-Any (r ∷ rs) (later a) = elim (Bool-cases (is_terminated r.status)) [
    | inl over ↦ rw over (open_rooms-Any rs a)
    | inr open_ ↦ rw open_ (insert-later r (open_rooms rs) (open_rooms-Any rs a))
  ]

  insert-All : (r : Room) (rs : List Room) → P r → All P rs → All P (insert_newest r rs)
  unfolding insert_newest
  insert-All r [] p a = (p, tt)
  insert-All r (s ∷ rs) p a = elim (Bool-cases (leb s.created_at r.created_at)) [
    | inl newest ↦ rw newest (p, a)
    | inr older ↦ rw older (a.0, insert-All r rs p a.1)
  ]

  pub open_rooms-All : (rs : List Room) → All P rs → All P (open_rooms rs)
  unfolding open_rooms
  open_rooms-All [] a = tt
  open_rooms-All (r ∷ rs) a = elim (Bool-cases (is_terminated r.status)) [
    | inl over ↦ rw over (open_rooms-All rs a.1)
    | inr open_ ↦ rw open_ (insert-All r (open_rooms rs) a.0 (open_rooms-All rs a.1))
  ]

  pub update_room-All :
      (id : ℕ) (change : Room → Room) (rs : List Room)
      → ((r : Room) → P r → P (change r))
      → All P rs
      → All P (update_room id change rs)
  unfolding update_room
  update_room-All id change [] keeps a = tt
  update_room-All id change (r ∷ rs) keeps a = elim (Bool-cases (r.room_id == id)) [
    | inl hit ↦ rw hit (keeps r a.0, update_room-All id change rs keeps a.1)
    | inr miss ↦ rw miss (a.0, update_room-All id change rs keeps a.1)
  ]

-- What the list of rooms says of a row.
pub record IsRowOf (r : Room) (l : RoomListing) : Type 0 where
  pub room_id : l.room_id ≡ r.room_id
  pub room_name : l.room_name ≡ r.room_name
  pub host_id : l.host_id ≡ r.host_id
  pub max_players : l.max_players ≡ r.max_players
  pub status : l.status ≡ r.status

-- Rows with addresses are read.
pub record Reads (rows : List Room) : Type 0 where
  pub listings : List RoomListing
  pub read : read_listings rows ≡ returned listings
  pub kept : (r : Room) → Any (λ x. x ≡ r) rows → Any (IsRowOf r) listings

abbrev listing_of : (r : Room) → HasAddress r → RoomListing
listing_of r h = record {
  room_id = r.room_id;
  room_name = r.room_name;
  host_id = r.host_id;
  ip_address = h.ip;
  port = h.port;
  max_players = r.max_players;
  status = r.status;
  created_at = r.created_at;
}

row_of : (x r : Room) (h : HasAddress x) → x ≡ r → IsRowOf r (listing_of x h)
row_of x r h e = record {
  room_id = ap (λ y. y.room_id) e;
  room_name = ap (λ y. y.room_name) e;
  host_id = ap (λ y. y.host_id) e;
  max_players = ap (λ y. y.max_players) e;
  status = ap (λ y. y.status) e;
}

kept_row :
    (x r : Room) (rows : List Room) (h : HasAddress x) (ls : List RoomListing)
    → ((r : Room) → Any (λ y. y ≡ r) rows → Any (IsRowOf r) ls)
    → Any (λ y. y ≡ r) (x ∷ rows)
    → Any (IsRowOf r) (listing_of x h ∷ ls)
kept_row x r rows h ls k (first e) = first (row_of x r h e)
kept_row x r rows h ls k (later m) = later (k r m)

read_listing-of : (x : Room) (h : HasAddress x) → read_listing x ≡ returned (listing_of x h)
unfolding read_listing
read_listing-of x h = rw (h.ip_is, h.port_is) refl

pub rows-Reads : (rows : List Room) → All HasAddress rows → Reads rows
unfolding read_listings read_first
rows-Reads [] a = record { listings = []; read = refl; kept = λ r m. elim m [ ] }
rows-Reads (x ∷ rows) (h, a) =
    let rest = rows-Reads rows a in
    record {
      listings = listing_of x h ∷ rest.listings;
      read = simp (read_listing-of x h, rest.read) refl;
      kept = λ r m. kept_row x r rows h rest.listings rest.kept m;
    }
