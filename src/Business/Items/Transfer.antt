-- ===== src/Business/Items/Transfer.antt =====
-- item_service.go: what a transfer does to the table.
use data_middleware.Prelude.{
  ℕ, ◌+ℤ◌, minus, AtLeast, ◌<◌, zero, ◌≡◌, refl, sym, ◌∙◌, ap, List, Option, none, some, pos,
  list_beq, list_beq_iff, suc, arith, Bool-cases, Option-cases, inl, inr,
}
use data_middleware.Business.Dao.{
  Queried, answer, unavailable, Written, done, refused, Written-cases,
}
use data_middleware.Prelude.IntLaws.{minus-add}
use data_middleware.Business.Items.{
  Item, ItemDao, IsItemDao, with_quantity, Puts, database, existing_item, refusal, finish, give,
  move, to_receiver, from_sender, transfer_item,
}
use data_middleware.Business.Items.Outcome.{
  Outcome, kept, lost, held, Puts-at, Puts-else, moved-Puts, existing_item-AllRows, Puts-twice,
}

-- The sender's items were taken, which left `t`; the receiver's statement reported an error there,
-- and the rollback, which is the last statement, reported another.
abbrev pub FailsTwice : {S : Type 0} → ItemDao S → List ℕ → List ℕ → List ℕ → ℕ → S → S → Type 0
FailsTwice {S} dao id to_user new_id q s after =
    (o : Item) × (t : S) × (existing : Option Item) × (dao.consume_item id q s ≡ (t, done))
    × ((give dao o to_user new_id q existing t).1 ≡ refused)
    × (dao.add_item_quantity id q (give dao o to_user new_id q existing t).0 ≡ (after, refused))

module _ {S : Type 0} (dao : ItemDao S) (row : S → List ℕ → Option Item)
    (h : IsItemDao dao row) where
  -- The receiver's statement reports success.
  give-done :
      (o : Item) (id to_user new_id : List ℕ) (q : ℕ) (existing : Option Item) (s t : S)
      → row s id ≡ some o
      → AtLeast q o.quantity
      → Puts (row s) (row t) id (with_quantity (minus o.quantity q) o)
      → ((x : Item)
          → existing ≡ some x
          → (row s x.item_id ≡ some x)
            × (x.user_id ≡ to_user)
            × (x.name ≡ o.name)
            × (x.kind ≡ o.kind))
      → 0 < q
      → (give dao o to_user new_id q existing t).1 ≡ done
      → Outcome
          (row s)
          (row (give dao o to_user new_id q existing t).0)
          (FailsTwice dao id to_user new_id q s (give dao o to_user new_id q existing t).0)
          id
          to_user
          q
          none
  give-done o id to_user new_id zero none s t has enough p f l e = absurd (omega (arith, l))
  give-done o id to_user new_id (suc n) none s t has enough p f l e =
      let (absent, r) = h.create_done _ t e in
      moved-Puts (row s) (row t) _ id to_user new_id (suc n) o _ has enough p r
        (rw absent (ap pos (omega arith))) (refl, refl, refl)
  give-done o id to_user new_id q (some x) s t has enough p f l e =
      let w = f x refl in
      let there = w.0 in
      let who : (x.user_id ≡ to_user) × (x.name ≡ o.name) × (x.kind ≡ o.kind) = (w.1, w.2, w.3) in
      elim (Bool-cases (list_beq id x.item_id)) [
        | inl y ↦
            let k : id ≡ x.item_id = (list_beq_iff id x.item_id).0 y in
            let same : x ≡ o = cc in
            let m : row t x.item_id ≡ some (with_quantity (minus o.quantity q) o) =
              rw (← k) (Puts-at (row s) (row t) id _ p) in
            let b : held (row t x.item_id) ≡ minus o.quantity q = rw m refl in
            moved-Puts (row s) (row t) _ id to_user x.item_id q o _ has enough p
              (h.add_done x.item_id q t _ e m) (ap (λ x. x +ℤ pos q) (sym b)) (rw same at who)
        | inr n ↦
            let m : row t x.item_id ≡ some x =
              Puts-else (row s) (row t) id x.item_id _ p n ∙ there in
            let b : held (row t x.item_id) ≡ x.quantity = rw m refl in
            moved-Puts (row s) (row t) _ id to_user x.item_id q o _ has enough p
              (h.add_done x.item_id q t x e m) (ap (λ x. x +ℤ pos q) (sym b)) who
      ]

  give-refused :
      (o : Item) (to_user new_id : List ℕ) (q : ℕ) (existing : Option Item) (t : S) (j : List ℕ)
      → (give dao o to_user new_id q existing t).1 ≡ refused
      → row (give dao o to_user new_id q existing t).0 j ≡ row t j
  give-refused o to_user new_id q none t j e = h.create_refused _ t j e
  give-refused o to_user new_id q (some x) t j e = h.add_refused x.item_id q t j e

  -- The rollback gives the sender's items back, or loses them.
  rollback-Outcome :
      {F : Type 0} (o : Item) (id to_user : List ℕ) (q : ℕ) (s t : S)
      → row s id ≡ some o
      → AtLeast q o.quantity
      → Puts (row s) (row t) id (with_quantity (minus o.quantity q) o)
      → ((dao.add_item_quantity id q t).1 ≡ refused → F)
      → Outcome (row s) (row (dao.add_item_quantity id q t).0) F id to_user q (some database)
  rollback-Outcome o id to_user q s t has enough p twice =
      elim (Written-cases (dao.add_item_quantity id q t).1) [
        | inl back ↦
            let r = h.add_done id q t _ back (Puts-at (row s) (row t) id _ p) in
            let b : minus o.quantity q +ℤ pos q ≡ o.quantity = minus-add o.quantity q in
            kept (λ j.
              Puts-twice (row s) (row t) _ id _ _ p r j ∙ elim (Bool-cases (list_beq id j)) [
                | inl y ↦
                    let k : id ≡ j = (list_beq_iff id j).0 y in
                    let z : row s j ≡ some o = rw (← k) has in
                    rw y (ap (λ n. some (with_quantity n o)) b ∙ sym z)
                | inr d ↦ rw d refl
              ])
        | inr gone ↦ lost o (twice gone) has (λ j. h.add_refused id q t j gone ∙ p j)
      ]

  finish-Outcome :
      (F : S → Type 0) (id to_user : List ℕ) (q : ℕ) (s : S) (r : S × Written)
      → (r.1 ≡ done → Outcome (row s) (row r.0) (F r.0) id to_user q none)
      → (r.1 ≡ refused
          → let t = (dao.add_item_quantity id q r.0).0 in
            Outcome (row s) (row t) (F t) id to_user q (some database))
      → let x = finish dao id q r in Outcome (row s) (row x.0) (F x.0) id to_user q x.1
  finish-Outcome F id to_user q s (t, done) f g = f refl
  finish-Outcome F id to_user q s (t, refused) f g = g refl

  move-Outcome :
      (o : Item) (id to_user new_id : List ℕ) (q : ℕ) (existing : Option Item) (s : S)
      (r : S × Written)
      → dao.consume_item id q s ≡ r
      → row s id ≡ some o
      → ((x : Item)
          → existing ≡ some x
          → (row s x.item_id ≡ some x)
            × (x.user_id ≡ to_user)
            × (x.name ≡ o.name)
            × (x.kind ≡ o.kind))
      → 0 < q
      → Outcome
          (row s)
          (row (move dao o id to_user new_id q existing r).0)
          (FailsTwice dao id to_user new_id q s (move dao o id to_user new_id q existing r).0)
          id
          to_user
          q
          (move dao o id to_user new_id q existing r).1
  move-Outcome o id to_user new_id q existing s (t, refused) c has f l =
      kept (λ j. let e = h.consume_refused id q s j (ap (λ x. x.1) c) in rw c at e)
  move-Outcome o id to_user new_id q existing s (t, done) c has f l =
      let (enough, p0) = h.consume_done id q s o (ap (λ x. x.1) c) has in
      let p : Puts (row s) (row t) id (with_quantity (minus o.quantity q) o) = rw c at p0 in
      let given = give dao o to_user new_id q existing t in
      finish-Outcome (FailsTwice dao id to_user new_id q s) id to_user q s given
        (give-done o id to_user new_id q existing s t has enough p f l)
        (λ e.
          rollback-Outcome o id to_user q s given.0 has enough
            (λ j. give-refused o to_user new_id q existing t j e ∙ p j)
            (λ gone.
              (o, t, existing, c, e, ap (λ w. ((dao.add_item_quantity id q given.0).0, w)) gone)))

  to_receiver-Outcome :
      (o : Item) (id to_user new_id : List ℕ) (q : ℕ) (s : S) (r : Queried (List Item))
      → dao.get_user_items to_user o.game_id s ≡ r
      → row s id ≡ some o
      → 0 < q
      → Outcome
          (row s)
          (row (to_receiver dao o id to_user new_id q s r).0)
          (FailsTwice dao id to_user new_id q s (to_receiver dao o id to_user new_id q s r).0)
          id
          to_user
          q
          (to_receiver dao o id to_user new_id q s r).1
  to_receiver-Outcome o id to_user new_id q s unavailable c has l = kept (λ j. refl)
  to_receiver-Outcome o id to_user new_id q s (answer items) c has l =
      move-Outcome o id to_user new_id q (existing_item o items) s (dao.consume_item id q s) refl
        has
        (λ x e.
          existing_item-AllRows (row s) to_user o x items
            (h.get_user_answer to_user o.game_id s items c) e)
        l

  from_sender-Outcome :
      (id from_user to_user new_id : List ℕ) (q : ℕ) (s : S) (r : Queried (Option Item))
      → dao.get_item_by_id id s ≡ r
      → 0 < q
      → Outcome
          (row s)
          (row (from_sender dao id from_user to_user new_id q s r).0)
          (FailsTwice dao id to_user new_id q s
            (from_sender dao id from_user to_user new_id q s r).0)
          id
          to_user
          q
          (from_sender dao id from_user to_user new_id q s r).1
  from_sender-Outcome id from_user to_user new_id q s unavailable c l = kept (λ j. refl)
  from_sender-Outcome id from_user to_user new_id q s (answer none) c l = kept (λ j. refl)
  from_sender-Outcome id from_user to_user new_id q s (answer (some o)) c l =
      elim (Option-cases (refusal o from_user q)) [
        | inl free ↦
            rw (free, from_sender)
              (to_receiver-Outcome o id to_user new_id q s _ refl (h.get_answer id s (some o) c) l)
        | inr (e, stopped) ↦ rw (stopped, from_sender) (kept (λ j. refl))
      ]

  -- Over a DAO that meets `IsItemDao`, whatever calls fail, a transfer of a positive quantity has
  -- one of three outcomes. It succeeds, and moves the quantity from the sender's row to a row of
  -- the receiver with the same name and kind, with their sum and every other row unchanged. Or it
  -- reports an error and leaves every row as it was. Or the receiver's statement and then the
  -- rollback, which is made, report an error; it reports the database's error, and the sender's items
  -- are lost.
  pub transfer_item-Outcome :
      (id from_user to_user new_id : List ℕ) (n : ℕ) (s : S)
      → Outcome
          (row s)
          (row (transfer_item dao id from_user to_user new_id (pos (suc n)) s).0)
          (FailsTwice dao id to_user new_id
            (suc n)
            s
            (transfer_item dao id from_user to_user new_id (pos (suc n)) s).0)
          id
          to_user
          (suc n)
          (transfer_item dao id from_user to_user new_id (pos (suc n)) s).1
  unfolding transfer_item
  transfer_item-Outcome id from_user to_user new_id n s =
      from_sender-Outcome id from_user to_user new_id (suc n) s _ refl (omega arith)
