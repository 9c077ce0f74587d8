-- ===== src/Storage/Sessions/Status.antt =====
-- What the statements do to one session, seen as a state machine: a session that is not the subject
-- of a new row keeps its status or becomes revoked.
use hsa.Prelude.{
  Option, none, some, false, List, [], ◌∷◌, map, ◌==◌, if◌then◌else◌, upsert, ◌≡◌, ◌⊎◌, refl, sym,
  ap, subst, arith, inl,
}
use hsa.Failure.{Result, ok, err, panic}
use hsa.Failure.Laws.{ok_pair-injective}
use hsa.Domain.User.{Uuid, Time}
use hsa.Domain.Session.{RefreshToken}
use hsa.Storage.Rows.{RefreshTokenRow, Db}
use hsa.Storage.Queries.{save_refresh_token, save_refresh_tokens, then_query}
use hsa.Storage.Sessions.{session_to_row, save}
use hsa.Storage.Sessions.Laws.{put}
use hsa.Storage.Preserves.{Change, Preserves, statement-Preserves}
use hsa.Runtime.{Env}

pub data Status : Type 0 where
  absent live revoked : Status

abbrev pub status_by : Option Time → Status
status_by none = live
status_by (some t) = revoked

-- The status of the session with this id, of which a table has one row.
unfoldable pub status : Uuid → List RefreshTokenRow → Status
status id [] = absent
status id (r ∷ rows) = if r.id == id then status_by r.revoked_at else status id rows

-- The steps of the abstract machine.
abbrev pub Moves : Status → Status → Type 0
Moves s t = (s ≡ t) ⊎ (t ≡ revoked)

pub Moves-trans : (a b c : Status) → Moves a b → Moves b c → Moves a c
Moves-trans a b c h k = ground arith

module _ (id : Uuid) where
  abbrev pub Steps : Change
  Steps = record {
    Rel = λ d d'. Moves (status id d.refresh_tokens) (status id d'.refresh_tokens);
    same = λ d. inl refl;
    trans = λ a b c h k.
        Moves-trans (status id a.refresh_tokens) (status id b.refresh_tokens)
          (status id c.refresh_tokens) h k;
  }

  pub same_sessions : (d d' : Db) → d'.refresh_tokens ≡ d.refresh_tokens → Steps.Rel d d'
  same_sessions d d' h = inl (ap (status id) (sym h))

  -- A row that may be saved: of another session, or revoked.
  abbrev pub MaySave : RefreshTokenRow → Type 0
  MaySave p = ((p.id == id) ≡ false) ⊎ ((t : Time) × (p.revoked_at ≡ some t))

  abbrev pub AllMaySave : List RefreshTokenRow → Type 0
  AllMaySave [] = Unit
  AllMaySave (p ∷ ps) = MaySave p × AllMaySave ps

  put-Moves :
      (p : RefreshTokenRow) (rows : List RefreshTokenRow)
      → MaySave p
      → Moves (status id rows) (status id (put p rows))
  unfolding status upsert
  put-Moves p [] h = ground arith
  put-Moves p (r ∷ rows) h = ground (arith, put-Moves p rows h)

  save_refresh_token-table :
      (p : RefreshTokenRow) (d d' : Db)
      → save_refresh_token p d ≡ ok (tt, d')
      → d'.refresh_tokens ≡ put p d.refresh_tokens
  unfolding save_refresh_token
  save_refresh_token-table p d d' h = ground arith

  save_refresh_token-Moves :
      (p : RefreshTokenRow) (d d' : Db)
      → MaySave p
      → save_refresh_token p d ≡ ok (tt, d')
      → Steps.Rel d d'
  save_refresh_token-Moves p d d' h e =
      subst (λ rows. Moves (status id d.refresh_tokens) (status id rows))
        (sym (save_refresh_token-table p d d' e)) (put-Moves p d.refresh_tokens h)

  then-Moves :
      (p : RefreshTokenRow) (d d' : Db) (rest : Db → Result (Unit {0} × Db))
      (r : Result (Unit {0} × Db))
      → MaySave p
      → save_refresh_token p d ≡ r
      → ((d₁ : Db) → rest d₁ ≡ ok (tt, d') → Steps.Rel d₁ d')
      → then_query r rest ≡ ok (tt, d')
      → Steps.Rel d d'
  then-Moves p d d' rest (ok (u, d₁)) h e more run =
      Steps.trans d d₁ d' (save_refresh_token-Moves p d d₁ h e) (more d₁ run)
  then-Moves p d d' rest (err x) h e more run = absurd (ground arith)
  then-Moves p d d' rest (panic x) h e more run = absurd (ground arith)

  pub save_refresh_tokens-Moves :
      (ps : List RefreshTokenRow) (d d' : Db)
      → AllMaySave ps
      → save_refresh_tokens ps d ≡ ok (tt, d')
      → Steps.Rel d d'
  unfolding save_refresh_tokens
  save_refresh_tokens-Moves [] d d' h e =
      same_sessions d d' (ap (λ (x : Db). x.refresh_tokens) (sym (ok_pair-injective e).1))
  save_refresh_tokens-Moves (p ∷ ps) d d' h e =
      then-Moves p d d' (save_refresh_tokens ps) (save_refresh_token p d) h.0 refl
        (λ d₁ run. save_refresh_tokens-Moves ps d₁ d' h.1 run) e

  -- Saving tokens that are revoked or of other sessions.
  pub save-Preserves :
      (env : Env) (tokens : List RefreshToken)
      → AllMaySave (map session_to_row tokens)
      → Preserves Steps (save env tokens)
  unfolding save
  save-Preserves env tokens h =
      statement-Preserves Steps env (save_refresh_tokens (map session_to_row tokens))
        (λ d u d' e. save_refresh_tokens-Moves (map session_to_row tokens) d d' h e)
