-- ===== src/RoomService/Rooms.antt =====
-- What the requests about rooms do (MatchingServer/src/service/room_service.cpp).
use back_end_doc.Common.{
  ℕ, ◌≤◌, ◌≡◌, refl, ap, subst, ◌∙◌, Bool, true, false, not, ◌||◌, Option, none, some, arith,
  if◌then◌else◌, Outcome, returned, Bytes,
}
use back_end_doc.Db.{Db}
use back_end_doc.Names.{is_valid_room_name}
use back_end_doc.Request.{Request, Field, absent, ill_typed, given, contains, get, get_int}
use back_end_doc.Response.{Response, error, created_room, create_room_raised}
use back_end_doc.RoomRepository.{RoomInfo, create_room_with_host}
use back_end_doc.RoomRepository.Outcomes.{Created, create_room_with_host-Created}
use back_end_doc.World.{World, Action, lift}
use back_end_doc.World.Binding.{bind_rule, catching_rule}
use back_end_doc.RoomService.{out_of_range, create_result, try_create, create_room_for}

-- A maximum that passes the test is 2 to 8, as the `int` that is stored too.
pub in_range :
    (m : Field ℕ) (max : ℕ)
    → out_of_range m ≡ false
    → get_int m ≡ returned max
    → (2 ≤ max) × (max ≤ 8)
unfolding out_of_range
in_range absent max h e = absurd (cc)
in_range ill_typed max h e = absurd (cc)
in_range (given n) max h e = (ground arith, ground arith)

-- What a created room says of the request: a valid name, 2 to 8 players, and the room opened in the
-- tables for the user of the request.
pub record Opens (r : Request) (info : RoomInfo) (before : World) (after : Db) : Type 0 where
  pub host : ℕ
  pub name : Bytes
  pub max : ℕ
  pub host_given : get_int r.user_id ≡ returned host
  pub name_given : r.room_name ≡ given name
  pub max_given : get_int r.max_players ≡ returned max
  pub name_valid : is_valid_room_name name ≡ true
  pub at_least : 2 ≤ max
  pub at_most : max ≤ 8
  pub opened : Created before.db host name max before.now (returned (some info)) after

abbrev OpensIf : Request → World → Outcome Response × World → Type 0
OpensIf r w x = (info : RoomInfo) → x.0 ≡ returned (created_room info) → Opens r info w x.1.db

given_of : {A : Type 0} (f : Field A) (a : A) → get f ≡ returned a → f ≡ given a
given_of absent a e = absurd (cc)
given_of ill_typed a e = absurd (cc)
given_of (given b) a e = ground arith

module _ (r : Request) (w : World) where
  OpensIf-if :
      (b : Bool) (m n : Action Response)
      → OpensIf r w (m w)
      → (b ≡ false → OpensIf r w (n w))
      → OpensIf r w ((if b then m else n) w)
  OpensIf-if true m n hm hn = hm
  OpensIf-if false m n hm hn = hn refl

  create_result-OpensIf :
      (info : Option RoomInfo) (v : World)
      → ((i : RoomInfo) → info ≡ some i → Opens r i w v.db)
      → OpensIf r w (create_result info v)
  unfolding create_result
  create_result-OpensIf none v h i e = absurd (ground arith)
  create_result-OpensIf (some j) v h i e = h i (ground arith)

  try_create-OpensIf : OpensIf r w (try_create r w)
  unfolding try_create
  try_create-OpensIf =
      OpensIf-if
        (not (contains r.room_name) || not (contains r.user_id) || not (contains r.max_players)) _ _
        (λ i e. absurd (ground arith))
        λ _.
          bind_rule (OpensIf r w) (lift (get r.room_name)) _ w (λ _ i e. absurd (ground arith))
            λ name en.
              OpensIf-if (not (is_valid_room_name name)) _ _ (λ i e. absurd (ground arith))
                λ ev.
                  OpensIf-if (out_of_range r.max_players) _ _ (λ i e. absurd (ground arith))
                    λ er.
                      bind_rule (OpensIf r w) (lift (get_int r.user_id)) _ w
                        (λ _ i e. absurd (ground arith))
                        λ host eh.
                          bind_rule (OpensIf r w) (lift (get_int r.max_players)) _ w
                            (λ _ i e. absurd (ground arith))
                            λ max em.
                              bind_rule (OpensIf r w) (create_room_with_host host name max)
                                create_result w (λ _ i e. absurd (ground arith))
                                λ info ei. create_result-OpensIf info _ λ i es. record {
                                  host = host;
                                  name = name;
                                  max = max;
                                  host_given = eh;
                                  name_given = given_of r.room_name name en;
                                  max_given = em;
                                  name_valid = ground arith;
                                  at_least = (in_range r.max_players max er em).0;
                                  at_most = (in_range r.max_players max er em).1;
                                  opened =
                                      subst
                                        (λ o.
                                          Created w.db host name max w.now o
                                            (create_room_with_host host name max w).1.db)
                                        (ei ∙ ap returned es)
                                        (create_room_with_host-Created host name max w);
                                }

-- A response that a room was created comes with a room opened in the tables, for the user, under the
-- name and with the maximum of the request, which were valid.
pub create_room_for-Opens :
    (r : Request) (w : World) (info : RoomInfo)
    → (create_room_for r w).0 ≡ returned (created_room info)
    → Opens r info w (create_room_for r w).1.db
unfolding create_room_for
create_room_for-Opens r w info =
    catching_rule (λ x. x.0 ≡ returned (created_room info) → Opens r info w x.1.db)
      (error create_room_raised) (try_create r) w (λ _ e. absurd (ground arith))
      (λ a e h. try_create-OpensIf r w info (e ∙ h))
