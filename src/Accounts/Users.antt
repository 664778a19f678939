-- ===== src/Accounts/Users.antt =====
-- `UserRepository` (backend/app/db/repositories/user_repo.py). The database's own `updated_at` is left out.
use ingame.Prelude.{
  ℕ, zero, suc, String, Bool, false, not, ◌&&◌, ◌||◌, Option, none, some, List, str_eq, ◌==◌,
  is_some,
}
use ingame.Errors.{Exec, Result, ok, err, integrity_error, asks, pure, ◌>>=◌}
use ingame.Db.Table.{count, one_or_none, update_rows, insert_row}
use ingame.Db.Models.{User}
use ingame.World.{World}
use ingame.Groups.Repo.{is_user}

-- `column == text`, where NULL equals nothing
abbrev pub text_is : String → Option String → Bool
text_is t none = false
text_is t (some u) = str_eq u t

-- two values of a unique column that may not stand in two rows
abbrev pub same_text : Option String → Option String → Bool
same_text none u = false
same_text (some t) u = text_is t u

abbrev pub clashes : User → User → Bool
clashes r s =
    same_text r.email s.email || same_text r.steam_id s.steam_id || same_text r.apple_id s.apple_id

abbrev pub set_users : List User → World → World
set_users rows w = record w { db = record w.db { users = rows } }

unfoldable pub get_by_email : String → Exec World (Option User)
get_by_email email = asks (λ w. one_or_none (λ r. text_is email r.email) w.users)

unfoldable pub get_by_steam_id : String → Exec World (Option User)
get_by_steam_id steam_id = asks (λ w. one_or_none (λ r. text_is steam_id r.steam_id) w.users)

unfoldable pub get_by_apple_id : String → Exec World (Option User)
get_by_apple_id apple_id = asks (λ w. one_or_none (λ r. text_is apple_id r.apple_id) w.users)

unfoldable pub email_exists : String → Exec World Bool
unfolding get_by_email
email_exists email = do found ← get_by_email email; pure (is_some found)

-- The keyword arguments of `create`; the other columns have their defaults.
pub record NewUser : Type 0 where
  pub email : Option String
  pub password_hash : Option String
  pub display_name : String
  pub avatar_url : Option String
  pub steam_id : Option String
  pub apple_id : Option String

abbrev pub user_of : ℕ → ℕ → NewUser → User
user_of id now n = record {
  id = id;
  email = n.email;
  password_hash = n.password_hash;
  display_name = n.display_name;
  avatar_url = n.avatar_url;
  bio = none;
  timezone = "UTC";
  preferred_gaming_hours = none;
  steam_id = n.steam_id;
  apple_id = n.apple_id;
  created_at = now;
  updated_at = none;
}

abbrev store_user : User → Result (List User) → Exec World User
store_user r (ok rows) w = (ok r, set_users rows w)
store_user r (err e) w = (err e, w)

unfoldable pub create : ℕ → ℕ → NewUser → Exec World User
unfolding insert_row
create id now n w =
    let r : User = user_of id now n in
    store_user r (insert_row (λ s. s.id == id || clashes r s) r w.users) w

-- the flush of the new values of a row, under the unique constraints
unfoldable pub flush_user : ℕ → (User → User) → User → Exec World (Option User)
unfolding count update_rows
flush_user u f r w = elim (count (λ s. not (s.id == u) && clashes (f r) s) w.users) [
  | zero ↦ (ok (some (f r)), set_users (update_rows (is_user u) f w.users) w)
  | suc _ ↦ (err integrity_error, w)
]

abbrev update_found : ℕ → (User → User) → Option User → Exec World (Option User)
update_found u f none w = (ok none, w)
update_found u f (some r) w = flush_user u f r w

unfoldable pub update : ℕ → (User → User) → Exec World (Option User)
unfolding flush_user
update u f = do found ← asks (λ w. one_or_none (is_user u) w.users); update_found u f found
