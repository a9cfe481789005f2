-- ===== src/Request.antt =====
-- A request, as the code sees it through nlohmann::json: for each key that the code reads, whether
-- the key is there (`contains`) and whether its value converts to the type that is asked for.
-- Numbers are 64-bit patterns; numbers with a fraction are not modelled.
use back_end_doc.Common.{ℕ, ◌%◌, Bool, true, false, Outcome, returned, threw, Bytes}

pub data Field {ℓ} (A : Type ℓ) : Type ℓ where
  absent ill_typed : Field A
  given : A → Field A

module _ {ℓ} {A : Type ℓ} where
  -- request.contains("key")
  abbrev pub contains : Field A → Bool
  contains absent = false
  contains ill_typed = true
  contains (given a) = true

  -- The conversion of a value throws a type error if it has another type. A missing key of a json
  -- that is not constant reads as null, and throws too.
  abbrev pub get : Field A → Outcome A
  get (given a) = returned a
  get absent = threw
  get ill_typed = threw

-- The conversion to `int` keeps the low 32 bits.
abbrev pub to_int : ℕ → ℕ
to_int n = n % 4294967296

abbrev pub get_int : Field ℕ → Outcome ℕ
get_int (given n) = returned (to_int n)
get_int absent = threw
get_int ill_typed = threw

-- The values of "action" that the code compares with; `unknown` is any other text.
pub data ActionName : Type 0 where
  register login ssafy_login update_nick_name : ActionName
  create_room join_room exit_room list_rooms : ActionName
  game_start game_end : ActionName
  alive_ping logout room_capacity ccu : ActionName
  unknown : ActionName

pub record Request : Type 0 where
  pub action : Field ActionName
  pub user_name : Field Bytes
  pub password : Field Bytes
  pub nick_name : Field Bytes
  pub room_name : Field Bytes
  pub user_id : Field ℕ
  pub max_players : Field ℕ
  pub room_id : Field ℕ
  pub map_id : Field ℕ
  pub game_id : Field ℕ
