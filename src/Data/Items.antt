-- ===== src/Data/Items.antt =====
-- internal/data/dao/dao.go: the item methods of daoImpl.
use data_middleware.Prelude.{
  ℕ, pos, ◌+ℤ◌, minus, AtLeast, at_least, ◌≡◌, refl, ap, ◌∙◌, Bool, true, false, ◌&&◌, ◌||◌, List,
  [], ◌∷◌, Option, some, list_beq, list_beq_iff, Bool-cases, inl, inr, arith, suc,
}
use data_middleware.Prelude.IntLaws.{at_least-AtLeast}
use data_middleware.Business.Dao.{Queried, answer, Written, done, refused}
use data_middleware.Business.Items.{
  Item, item_stored, ItemDao, with_quantity, AllRows, Puts, IsItemDao,
}
use data_middleware.Data.Rows.{find_row, select, has, AllAt, select-AllAt, count_at, find-holds}
use data_middleware.Data.Table.{Table, IsTable, completed, some_affected, ending}
use data_middleware.Data.Table.Keyed.{
  find-put, updates_at, completed-done, completed-refused, some_affected-done,
  some_affected-refused,
}

abbrev pub item_key : Item → List ℕ
item_key o = o.item_id

abbrev pub item_conflict : Item → Item → Bool
item_conflict o = has item_key o.item_id

abbrev pub item_row : {S : Type 0} → (S → List Item) → S → List ℕ → Option Item
item_row rows s id = find_row (has item_key id) (rows s)

-- `WHERE user_id = ?`, and `AND game_id = ?` unless the game is empty
abbrev pub is_of : List ℕ → List ℕ → Item → Bool
is_of user game o = list_beq o.user_id user && (list_beq game [] || list_beq o.game_id game)

-- `item_id = ? AND quantity >= ?`
abbrev pub has_enough : List ℕ → ℕ → Item → Bool
has_enough id n o = has item_key id o && at_least n o.quantity

abbrev pub decreased : ℕ → Item → Item
decreased n o = with_quantity (minus o.quantity n) o

abbrev pub increased : ℕ → Item → Item
increased n o = with_quantity (o.quantity +ℤ pos n) o

module _ {S : Type 0} (t : Table Item S) where
  unfoldable pub create_item_row : Item → S → S × Written
  create_item_row o s = t.create (item_stored o) s

  unfoldable pub get_item_by_id : List ℕ → S → Queried (Option Item)
  get_item_by_id id s = t.first (has item_key id) s

  unfoldable pub get_user_items : List ℕ → List ℕ → S → Queried (List Item)
  get_user_items user game s = t.find (is_of user game) s

  unfoldable pub consume_item_row : List ℕ → ℕ → S → S × Written
  consume_item_row id n s = ending some_affected (t.updates (has_enough id n) (decreased n) s)

  unfoldable pub add_item_row_quantity : List ℕ → ℕ → S → S × Written
  add_item_row_quantity id n s = ending completed (t.updates (has item_key id) (increased n) s)

  unfoldable pub update_item_row : Item → S → S × Written
  update_item_row o s = t.save o s

  unfoldable pub delete_item_row : List ℕ → S → S × Written
  delete_item_row id s = ending completed (t.delete (has item_key id) s)

  abbrev pub item_dao : ItemDao S
  item_dao = record {
    create_item = create_item_row;
    get_item_by_id = get_item_by_id;
    get_user_items = get_user_items;
    consume_item = consume_item_row;
    add_item_quantity = add_item_row_quantity;
  }

has_enough_key :
    (id : List ℕ) (n : ℕ) (o : Item) → has_enough id n o ≡ true → has item_key id o ≡ true
has_enough_key id n o e = ground arith

has_enough_not :
    (id : List ℕ) (n : ℕ) (o : Item) → has item_key id o ≡ false → has_enough id n o ≡ false
has_enough_not id n o e = rw e refl

has_enough-le : (id : List ℕ) (n : ℕ) (o : Item) → has_enough id n o ≡ true → AtLeast n o.quantity
has_enough-le id n o e = at_least-AtLeast n o.quantity (ground arith)

is_of_user : (user game : List ℕ) (o : Item) → is_of user game o ≡ true → o.user_id ≡ user
is_of_user user game o e = (list_beq_iff o.user_id user).0 (ground arith)

AllAt-AllRows :
    (user game : List ℕ) (ts rs : List Item)
    → AllAt item_key ts (select (is_of user game) rs)
    → AllRows (λ id. find_row (has item_key id) ts) user (select (is_of user game) rs)
AllAt-AllRows user game ts [] h = tt
AllAt-AllRows user game ts (r ∷ rs) h = elim (Bool-cases (is_of user game r)) [
  | inl y ↦
      let h2 = rw y at h in
      rw y (h2.0, is_of_user user game r y, AllAt-AllRows user game ts rs h2.1)
  | inr n ↦ rw n (AllAt-AllRows user game ts rs (rw n at h))
]

module _ {S : Type 0} (t : Table Item S) (rows : S → List Item)
    (h : IsTable t rows item_key item_conflict) where
  pub consume_row :
      (id : List ℕ) (n : ℕ) (s : S) (o : Item)
      → (consume_item_row t id n s).1 ≡ done
      → item_row rows s id ≡ some o
      → AtLeast n o.quantity
        × Puts
            (item_row rows s)
            (item_row rows (consume_item_row t id n s).0)
            id
            (with_quantity (minus o.quantity n) o)
  unfolding consume_item_row
  consume_row id n s o e there =
      let (k, affected) = some_affected-done _ e in
      let (few, changed) = h.updates_done (has_enough id n) (decreased n) (suc k) s affected in
      let enough : has_enough id n o ≡ true =
        count_at item_key (has_enough id n) id (rows s) o (has_enough_key id n) (h.unique s) there
          (omega (arith, few)) in
      (
        has_enough-le id n o enough,
        λ j.
            updates_at t rows item_key item_conflict h (has_enough id n) (decreased n) id j s o
              (suc k) (λ i r y. refl) (has_enough_not id n) affected there enough,
      )

  add_row :
      (id : List ℕ) (n : ℕ) (s : S) (o : Item)
      → (add_item_row_quantity t id n s).1 ≡ done
      → item_row rows s id ≡ some o
      → Puts
          (item_row rows s)
          (item_row rows (add_item_row_quantity t id n s).0)
          id
          (with_quantity (o.quantity +ℤ pos n) o)
  unfolding add_item_row_quantity
  add_row id n s o e there j =
      let (k, affected) = completed-done _ e in
      updates_at t rows item_key item_conflict h (has item_key id) (increased n) id j s o k
        (λ i r y. refl) (λ r m. m) affected there (find-holds (has item_key id) (rows s) o there)

  pub get_user_rows :
      (user game : List ℕ) (s : S) (items : List Item)
      → get_user_items t user game s ≡ answer items
      → AllRows (item_row rows s) user items
  unfolding get_user_items
  get_user_rows user game s items e =
      let selected = h.find_answer (is_of user game) s items e in
      rw (← selected) (
        AllAt-AllRows user game (rows s) (rows s)
          (select-AllAt item_key (is_of user game) (rows s) (h.unique s)))

  consume_refused_row :
      (id : List ℕ) (n : ℕ) (s : S) (j : List ℕ)
      → (consume_item_row t id n s).1 ≡ refused
      → item_row rows (consume_item_row t id n s).0 j ≡ item_row rows s j
  unfolding consume_item_row
  consume_refused_row id n s j e = elim (some_affected-refused _ e) [
    | inl zero_rows ↦
        ap (find_row (has item_key j)) (h.updates_none (has_enough id n) (decreased n) s zero_rows)
    | inr broke ↦
        ap (find_row (has item_key j)) (h.updates_failed (has_enough id n) (decreased n) s broke)
  ]

  -- The item methods of the data access object do on every table with a unique index what the item
  -- service relies on: a consumption that reports success found enough and takes exactly that from
  -- the one item it names; an addition adds to that item alone; a created item is new, and is
  -- stored with the defaults of its columns for the fields that are zero; the items of
  -- a user are rows of the table that belong to the user; and a method that reports an error
  -- changes nothing.
  pub item_dao-IsItemDao : IsItemDao (item_dao t) (item_row rows)
  unfolding create_item_row get_item_by_id add_item_row_quantity
  item_dao-IsItemDao = record {
    get_answer = λ id s o e. h.first_answer (has item_key id) s o e;
    get_user_answer = get_user_rows;
    create_done = λ o s e.
        let (free, put) = h.create_done (item_stored o) s e in
        (
          free,
          λ j.
              ap (find_row (has item_key j)) put
              ∙ find-put item_key (rows s) (item_stored o) j free,
        );
    consume_done = consume_row;
    add_done = add_row;
    create_refused =
        λ o s j e. ap (find_row (has item_key j)) (h.create_refused (item_stored o) s e);
    consume_refused = consume_refused_row;
    add_refused = λ id n s j e.
        ap (find_row (has item_key j))
          (h.updates_failed (has item_key id) (increased n) s (completed-refused _ e));
  }
