-- ===== src/Storage/Untouched.antt =====
-- The methods of the repositories that leave the sessions as they are.
use hsa.Prelude.{Option, String, List, [], ◌∷◌, map, Bytes, ◌≡◌, refl, sym, ap, ◌∙◌, arith}
use hsa.Failure.{Error, Result, ok, err, panic}
use hsa.Failure.Laws.{ok_pair-injective}
use hsa.Domain.User.{Uuid, Time, User}
use hsa.Domain.Invite.{Invite}
use hsa.Domain.Credential.{Credential}
use hsa.Domain.Key.{WrappedKey}
use hsa.Storage.Rows.{WrappedKeyRow, Db}
use hsa.Storage.Queries.{
  Query, one_row, then_query, find_user_by_id, find_root_user, save_user,
  find_credential_by_external_id, save_credential, find_invite_by_code_hash,
  find_invite_by_id_for_update, count_active_invites_by_user, save_invite,
  find_refresh_token_by_token_hash, find_refresh_token_by_id_for_update,
  list_active_refresh_tokens_by_user_ids, list_wrapped_keys_by_credential_id, copy_wrapped_key,
  save_wrapped_keys, lock_user_by_id,
}
use hsa.Storage.Queries.Laws.{one_row-eq-ok}
use hsa.Storage.Users
use hsa.Storage.Sessions
use hsa.Storage.Credentials
use hsa.Storage.Invites
use hsa.Storage.Keys
use hsa.Storage.Descendants.{list_descendant_user_ids, descendants}
use hsa.Storage.Sessions.Status.{Steps, same_sessions}
use hsa.Storage.Preserves.{
  Preserves, >>=-Preserves, lift-Preserves, map_err-Preserves, statement-Preserves,
}
use hsa.Runtime.{Env, M, statement, map_err, ◌>>=◌}

abbrev Keeps : {A : Type 0} → Query A → Type 0
Keeps {A} q = (d : Db) (a : A) (d' : Db) → q d ≡ ok (a, d') → d'.refresh_tokens ≡ d.refresh_tokens

copy-Keeps : (p : WrappedKeyRow) → Keeps (copy_wrapped_key p)
unfolding copy_wrapped_key
copy-Keeps p d a d' h = ground arith

then-Keeps :
    (d d' : Db) (q : Query (Unit {0})) (r : Result (Unit {0} × Db))
    → ((d₁ : Db) → r ≡ ok (tt, d₁) → d₁.refresh_tokens ≡ d.refresh_tokens)
    → Keeps q
    → then_query r q ≡ ok (tt, d')
    → d'.refresh_tokens ≡ d.refresh_tokens
then-Keeps d d' q (ok (u, d₁)) first rest h = rest d₁ tt d' h ∙ first d₁ refl
then-Keeps d d' q (err e) first rest h = absurd (ground arith)
then-Keeps d d' q (panic p) first rest h = absurd (ground arith)

keys-Keeps : (ps : List WrappedKeyRow) → Keeps (save_wrapped_keys ps)
unfolding save_wrapped_keys
keys-Keeps [] d a d' h = ap (λ (x : Db). x.refresh_tokens) (sym (ok_pair-injective h).1)
keys-Keeps (p ∷ ps) d a d' h =
    then-Keeps d d' (save_wrapped_keys ps) (copy_wrapped_key p d) (λ d₁ e. copy-Keeps p d tt d₁ e)
      (keys-Keeps ps) h

module _ (id : Uuid) (env : Env) where
  Keeps-Preserves : {A : Type 0} (q : Query A) → Keeps q → Preserves (Steps id) (statement env q)
  Keeps-Preserves q h =
      statement-Preserves (Steps id) env q (λ d a d' e. same_sessions id d d' (h d a d' e))

  -- A statement that reads, and what is made of its row.
  read-Preserves :
      {A B : Type 0} (f : Error → Error) (q : Query A) (g : A → Result B)
      → Keeps q
      → Preserves (Steps id) (map_err f (statement env q) >>= λ a. hsa.Runtime.lift (g a))
  read-Preserves f q g h =
      >>=-Preserves (Steps id) (map_err f (statement env q)) (λ a. hsa.Runtime.lift (g a))
        (map_err-Preserves (Steps id) f (statement env q) (Keeps-Preserves q h))
        (λ a. lift-Preserves (Steps id) (g a))

  one_row-Keeps : {A : Type 0} (o : Db → Option A) → Keeps (λ d. one_row (o d) d)
  one_row-Keeps o d a d' h = ap (λ (x : Db). x.refresh_tokens) (one_row-eq-ok (o d) d h).1

  read_all-Keeps : {A : Type 0} (f : Db → A) → Keeps (λ d. ok (f d, d))
  read_all-Keeps f d a d' h = ap (λ (x : Db). x.refresh_tokens) (sym (ok_pair-injective h).1)

  pub find_user-Preserves : (user : Uuid) → Preserves (Steps id) (Users.find_by_id env user)
  unfolding Users.find_by_id find_user_by_id
  find_user-Preserves user = read-Preserves _ (find_user_by_id user) _ (one_row-Keeps _)

  pub find_root-Preserves : Preserves (Steps id) (Users.find_root env)
  unfolding Users.find_root find_root_user
  find_root-Preserves = read-Preserves _ find_root_user _ (one_row-Keeps _)

  pub save_user-Preserves : (u : User) → Preserves (Steps id) (Users.save env u)
  unfolding Users.save save_user
  save_user-Preserves u = Keeps-Preserves _ (λ d a d' h. ground arith)

  pub find_by_token_hash-Preserves :
      (hash : String) → Preserves (Steps id) (Sessions.find_by_token_hash env hash)
  unfolding Sessions.find_by_token_hash find_refresh_token_by_token_hash
  find_by_token_hash-Preserves hash =
      read-Preserves _ (find_refresh_token_by_token_hash hash)
        (λ row. ok (Sessions.row_to_session row)) (one_row-Keeps _)

  pub find_session-Preserves :
      (session : Uuid) → Preserves (Steps id) (Sessions.find_by_id env session)
  unfolding Sessions.find_by_id find_refresh_token_by_id_for_update
  find_session-Preserves session =
      read-Preserves _ (find_refresh_token_by_id_for_update session)
        (λ row. ok (Sessions.row_to_session row)) (one_row-Keeps _)

  pub find_active-Preserves :
      (users : List Uuid) (now : Time)
      → Preserves (Steps id) (Sessions.find_active_by_user_ids env users now)
  unfolding Sessions.find_active_by_user_ids list_active_refresh_tokens_by_user_ids
  find_active-Preserves users now =
      >>=-Preserves (Steps id) (statement env (list_active_refresh_tokens_by_user_ids users now)) _
        (Keeps-Preserves (list_active_refresh_tokens_by_user_ids users now) (read_all-Keeps _))
        (λ rows. lift-Preserves (Steps id) (ok (map Sessions.row_to_session rows)))

  pub find_credential-Preserves :
      (x : Bytes) → Preserves (Steps id) (Credentials.find_by_external_id env x)
  unfolding Credentials.find_by_external_id find_credential_by_external_id
  find_credential-Preserves x =
      read-Preserves _ (find_credential_by_external_id x)
        (λ row. ok (Credentials.row_to_credential row)) (one_row-Keeps _)

  pub save_credential-Preserves : (c : Credential) → Preserves (Steps id) (Credentials.save env c)
  unfolding Credentials.save save_credential
  save_credential-Preserves c = Keeps-Preserves _ (λ d a d' h. ground arith)

  pub find_invite_by_hash-Preserves :
      (hash : String) → Preserves (Steps id) (Invites.find_by_code_hash env hash)
  unfolding Invites.find_by_code_hash find_invite_by_code_hash
  find_invite_by_hash-Preserves hash =
      read-Preserves _ (find_invite_by_code_hash hash) (λ row. ok (Invites.row_to_invite row))
        (one_row-Keeps _)

  pub find_invite-Preserves : (invite : Uuid) → Preserves (Steps id) (Invites.find_by_id env invite)
  unfolding Invites.find_by_id find_invite_by_id_for_update
  find_invite-Preserves invite =
      read-Preserves _ (find_invite_by_id_for_update invite) (λ row. ok (Invites.row_to_invite row))
        (one_row-Keeps _)

  pub save_invite-Preserves : (i : Invite) → Preserves (Steps id) (Invites.save env i)
  unfolding Invites.save save_invite
  save_invite-Preserves i = Keeps-Preserves _ (λ d a d' h. ground arith)

  pub count_invites-Preserves :
      (user : Uuid) (now : Time) → Preserves (Steps id) (Invites.count_active_by_user env user now)
  unfolding Invites.count_active_by_user lock_user_by_id count_active_invites_by_user
  count_invites-Preserves user now =
      >>=-Preserves (Steps id) (statement env (lock_user_by_id user)) _
        (Keeps-Preserves (lock_user_by_id user) (read_all-Keeps (λ d. tt)))
        (λ u. Keeps-Preserves (count_active_invites_by_user user now) (read_all-Keeps _))

  pub save_keys-Preserves : (keys : List WrappedKey) → Preserves (Steps id) (Keys.save env keys)
  unfolding Keys.save
  save_keys-Preserves keys = Keeps-Preserves _ (keys-Keeps (map Keys.wrapped_key_to_row keys))

  pub find_keys-Preserves :
      (credential : Uuid) → Preserves (Steps id) (Keys.find_by_credential_id env credential)
  unfolding Keys.find_by_credential_id list_wrapped_keys_by_credential_id
  find_keys-Preserves credential =
      read-Preserves _ (list_wrapped_keys_by_credential_id credential) _ (read_all-Keeps _)

  pub descendants-Preserves : (root : Uuid) → Preserves (Steps id) (descendants env root)
  unfolding descendants list_descendant_user_ids
  descendants-Preserves root = read-Preserves _ (list_descendant_user_ids root) _ (read_all-Keeps _)
