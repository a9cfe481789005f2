-- ===== src/Stable/Persistence.antt =====
-- What is to stay of the accounts, and the changes of the table of users
-- (MatchingServer/src/repository/user_repository.cpp).
use back_end_doc.Common.{
  ℕ, ◌≡◌, refl, sym, subst, ◌∙◌, false, Option, none, some, List, [], ◌∷◌, ◌==◌, if◌then◌else◌,
  arith, Outcome, Bytes, Bool-cases, inl, inr,
}
use mathlib.Core.Option
use back_end_doc.Db.{Db, User}
use back_end_doc.Db.Query.{has_user, update_user}
use back_end_doc.UserRepository.{name_taken}
use back_end_doc.UserRepository.Outcomes as Accounts
use back_end_doc.World.{Engine}

unfoldable pub find_user : ℕ → List User → Option User
find_user id [] = none
find_user id (u ∷ us) = if u.user_id == id then some u else find_user id us

-- No two accounts have one name, as it is written.
abbrev pub UniqueNames : List User → Type 0
UniqueNames [] = Unit
UniqueNames (u ∷ us) = (name_taken u.user_name us ≡ false) × UniqueNames us

-- The accounts that there were have kept their names and their passwords, and names are unique.
pub record Persists (before db : Db) : Type 0 where
  pub names : UniqueNames db.users
  pub kept :
      (id : ℕ) (u : User)
      → find_user id before.users ≡ some u
      → (v : User) × (find_user id db.users ≡ some v)
        × (v.user_name ≡ u.user_name)
        × (v.password_hash ≡ u.password_hash)

find_user-missing : (id : ℕ) (us : List User) → has_user id us ≡ false → find_user id us ≡ none
unfolding has_user find_user
find_user-missing id [] h = refl
find_user-missing id (u ∷ us) h = ground (arith, find_user-missing id us)

-- A change that leaves the id, the name and the password alone.
pub record IsMild (change : User → User) : Type 0 where
  pub same_id : (u : User) → (change u).user_id ≡ u.user_id
  pub same_name : (u : User) → (change u).user_name ≡ u.user_name
  pub same_hash : (u : User) → (change u).password_hash ≡ u.password_hash

module _ (change : User → User) (m : IsMild change) (id : ℕ) where
  name_taken-update_user :
      (name : Bytes) (us : List User)
      → name_taken name (update_user id change us) ≡ name_taken name us
  unfolding name_taken update_user
  name_taken-update_user name [] = refl
  name_taken-update_user name (u ∷ us) = elim (Bool-cases (u.user_id == id)) [
    | inl hit ↦ rw (hit, m.same_name u, name_taken-update_user name us) refl
    | inr miss ↦ rw (miss, name_taken-update_user name us) refl
  ]

  UniqueNames-update_user :
      (us : List User) → UniqueNames us → UniqueNames (update_user id change us)
  unfolding update_user
  UniqueNames-update_user [] h = tt
  UniqueNames-update_user (u ∷ us) h = elim (Bool-cases (u.user_id == id)) [
    | inl hit ↦
        rw (hit, m.same_name u, name_taken-update_user u.user_name us)
          (h.0, UniqueNames-update_user us h.1)
    | inr miss ↦
        rw (miss, name_taken-update_user u.user_name us) (h.0, UniqueNames-update_user us h.1)
  ]

  find_user-update_user :
      (k : ℕ) (us : List User)
      → find_user k (update_user id change us)
        ≡ (if k == id then Option.map change (find_user k us) else find_user k us)
  unfolding find_user update_user
  find_user-update_user k [] = ground arith
  find_user-update_user k (u ∷ us) = ground (arith, m.same_id u, find_user-update_user k us)

  still_there :
      (k : ℕ) (us : List User) (v : User)
      → find_user k us ≡ some v
      → (w : User) × (find_user k (update_user id change us) ≡ some w)
        × (w.user_name ≡ v.user_name)
        × (w.password_hash ≡ v.password_hash)
  still_there k us v h = elim (Bool-cases (k == id)) [
    | inl hit ↦
        (change v, rw (find_user-update_user k us, hit, h) refl, m.same_name v, m.same_hash v)
    | inr miss ↦ (v, rw (find_user-update_user k us, miss, h) refl, refl, refl)
  ]

  pub changed-Persists :
      {before db : Db}
      → Persists before db
      → Persists before (record db { users = update_user id change db.users })
  changed-Persists {before} {db} p = record {
    names = UniqueNames-update_user db.users p.names;
    kept = λ k u h.
        let (v, hit, en, eh) = p.kept k u h in
        let (w, hit', en', eh') = still_there k db.users v hit in (w, hit', en' ∙ en, eh' ∙ eh);
  }

-- A new account has an id and a name that no account has.
pub inserted-Persists :
    {e : Engine} {name hash : Bytes} {now : ℕ} {before db after : Db} {o : Outcome ℕ}
    → Persists before db
    → Accounts.Inserted e name hash now db o after
    → Persists before after
unfolding find_user
inserted-Persists p Accounts.raised = p
inserted-Persists p Accounts.refused = p
inserted-Persists {e} {name} {hash} {now} {before} {db} p (Accounts.inserted unused eo ea) =
    subst (Persists before) (sym ea) (record {
      names = (unused, p.names);
      kept = λ k u h.
          let (v, hit, en, eh) = p.kept k u h in
          (
            v,
            ground (arith, hit, find_user-missing k db.users, e.next_user_fresh db.users),
            en,
            eh,
          );
    })

-- A change of the rooms or the games.
pub same_users :
    {before db after : Db} → Persists before db → after.users ≡ db.users → Persists before after
same_users {before} p e = record {
  names = subst UniqueNames (sym e) p.names;
  kept = λ k u h.
      subst
        (λ us.
          (v : User) × (find_user k us ≡ some v)
          × (v.user_name ≡ u.user_name)
          × (v.password_hash ≡ u.password_hash))
        (sym e) (p.kept k u h);
}
