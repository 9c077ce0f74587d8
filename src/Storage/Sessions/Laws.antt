-- ===== src/Storage/Sessions/Laws.antt =====
-- The table of refresh tokens under the batch that saves tokens read from it: the batch is one
-- `UPDATE` of the rows that were read.
use hsa.Prelude.{
  some, Bool, true, false, List, [], ◌∷◌, map, ◌≡◌, refl, arith, ◌==◌, inl, inr, Bool-cases, exists,
  select, upsert, if◌then◌else◌, ap, ◌∙◌,
}
use hsa.Failure.{ok}
use hsa.Domain.User.{Uuid, Time}
use hsa.Storage.Rows.{RefreshTokenRow, Db}
use hsa.Storage.Queries.{save_refresh_token, save_refresh_tokens, merge_refresh_token}

abbrev pub has_id : Uuid → List RefreshTokenRow → Bool
has_id id rows = exists (λ t. t.id == id) rows

-- The primary key of the table.
abbrev pub HasDistinctIds : List RefreshTokenRow → Type 0
HasDistinctIds [] = Unit
HasDistinctIds (r ∷ rows) = (has_id r.id rows ≡ false) × HasDistinctIds rows

-- Every row of a batch names a row of the table.
abbrev pub AllKnown : List RefreshTokenRow → List RefreshTokenRow → Type 0
AllKnown [] rows = Unit
AllKnown (p ∷ ps) rows = (has_id p.id rows ≡ true) × AllKnown ps rows

abbrev pub put : RefreshTokenRow → List RefreshTokenRow → List RefreshTokenRow
put p rows = upsert (λ t. t.id == p.id) (merge_refresh_token p) p rows

abbrev pub put_all : List RefreshTokenRow → List RefreshTokenRow → List RefreshTokenRow
put_all [] rows = rows
put_all (p ∷ ps) rows = put_all ps (put p rows)

has_id-put :
    (id : Uuid) (p : RefreshTokenRow) (rows : List RefreshTokenRow)
    → has_id id rows ≡ true
    → has_id id (put p rows) ≡ true
unfolding exists upsert
has_id-put id p [] h = cc
has_id-put id p (r ∷ rows) h = ground (arith, has_id-put id p rows)

AllKnown-put :
    (ps : List RefreshTokenRow) (p : RefreshTokenRow) (rows : List RefreshTokenRow)
    → AllKnown ps rows
    → AllKnown ps (put p rows)
AllKnown-put [] p rows h = tt
AllKnown-put (q ∷ ps) p rows h = (has_id-put q.id p rows h.0, AllKnown-put ps p rows h.1)

save_refresh_token_known :
    (p : RefreshTokenRow) (d : Db)
    → has_id p.id d.refresh_tokens ≡ true
    → save_refresh_token p d ≡ ok (tt, record d { refresh_tokens = put p d.refresh_tokens })
unfolding save_refresh_token
save_refresh_token_known p d h = ground arith

pub save_refresh_tokens_known :
    (ps : List RefreshTokenRow) (d : Db)
    → AllKnown ps d.refresh_tokens
    → save_refresh_tokens ps d ≡ ok (tt, record d { refresh_tokens = put_all ps d.refresh_tokens })
unfolding save_refresh_tokens
save_refresh_tokens_known [] d h = refl
save_refresh_tokens_known (p ∷ ps) d h = rw (save_refresh_token_known p d h.0) (
    save_refresh_tokens_known ps (record d { refresh_tokens = put p d.refresh_tokens })
      (AllKnown-put ps p d.refresh_tokens h.1))

-- The rows of the batch are rows of the table that passed the test, each marked as revoked.
abbrev pub mark : Time → RefreshTokenRow → RefreshTokenRow
mark now r = record r { revoked_at = some now }

abbrev pub mark_if : (RefreshTokenRow → Bool) → Time → RefreshTokenRow → RefreshTokenRow
mark_if p now r = if p r then mark now r else r

module _ (p : RefreshTokenRow → Bool) (now : Time) where
  abbrev batch : List RefreshTokenRow → List RefreshTokenRow
  batch rows = map (mark now) (select p rows)

  has_id-batch :
      (id : Uuid) (rows : List RefreshTokenRow)
      → has_id id rows ≡ false
      → has_id id (batch rows) ≡ false
  unfolding exists select
  has_id-batch id [] h = refl
  has_id-batch id (r ∷ rows) h = elim (Bool-cases (p r)) [
    | inl e ↦ rw (e, select) (ground (arith, has_id-batch id rows))
    | inr e ↦ rw (e, select) (ground (arith, has_id-batch id rows))
  ]

  put_all-skip :
      (ps : List RefreshTokenRow) (r : RefreshTokenRow) (rows : List RefreshTokenRow)
      → has_id r.id ps ≡ false
      → put_all ps (r ∷ rows) ≡ r ∷ put_all ps rows
  unfolding exists upsert
  put_all-skip [] r rows h = refl
  put_all-skip (q ∷ ps) r rows h = ground (arith, put_all-skip ps r (put q rows))

  put-mark :
      (r : RefreshTokenRow) (rows : List RefreshTokenRow)
      → put (mark now r) (r ∷ rows) ≡ mark now r ∷ rows
  unfolding upsert
  put-mark r rows = ground arith

  -- Saving the marked rows marks those that pass the test in place and keeps the others.
  pub put_all-batch :
      (rows : List RefreshTokenRow)
      → HasDistinctIds rows
      → put_all (batch rows) rows ≡ map (mark_if p now) rows
  unfolding select
  put_all-batch [] h = refl
  put_all-batch (r ∷ rows) h =
      let absent = has_id-batch r.id rows h.0 in
      elim (Bool-cases (p r)) [
        | inl e ↦ rw e (
            ap (put_all (batch rows)) (put-mark r rows)
            ∙ put_all-skip (batch rows) (mark now r) rows absent
            ∙ ap (λ l. mark now r ∷ l) (put_all-batch rows h.1))
        | inr e ↦
            rw e
              (put_all-skip (batch rows) r rows absent ∙ ap (λ l. r ∷ l) (put_all-batch rows h.1))
      ]

  AllKnown-cons :
      (ps : List RefreshTokenRow) (r : RefreshTokenRow) (rows : List RefreshTokenRow)
      → AllKnown ps rows
      → AllKnown ps (r ∷ rows)
  unfolding exists
  AllKnown-cons [] r rows h = tt
  AllKnown-cons (q ∷ ps) r rows h = (ground arith, AllKnown-cons ps r rows h.1)

  AllKnown-batch : (rows : List RefreshTokenRow) → AllKnown (batch rows) rows
  unfolding select exists
  AllKnown-batch [] = tt
  AllKnown-batch (r ∷ rows) = elim (Bool-cases (p r)) [
    | inl e ↦ rw e (ground arith, AllKnown-cons (batch rows) r rows (AllKnown-batch rows))
    | inr e ↦ rw e (AllKnown-cons (batch rows) r rows (AllKnown-batch rows))
  ]

  -- The batch over the rows that were read is one `UPDATE`.
  pub save_refresh_tokens-batch :
      (d : Db)
      → HasDistinctIds d.refresh_tokens
      → save_refresh_tokens (batch d.refresh_tokens) d
        ≡ ok (tt, record d { refresh_tokens = map (mark_if p now) d.refresh_tokens })
  save_refresh_tokens-batch d h =
      rw (← put_all-batch d.refresh_tokens h)
        (save_refresh_tokens_known (batch d.refresh_tokens) d (AllKnown-batch d.refresh_tokens))
