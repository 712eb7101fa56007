-- ===== src/Server/System/Work.antt =====
-- routes/work-items.ts on tables that are sound: every handler answers, and keeps them sound.
use workspace_os.Base.{
  ℕ, String, Bool, true, false, ◌++◌, sym, List, [], ◌∷◌, some, ok, err, ◌≡◌, refl, inl, inr, All,
  map, Bool-cases, Option-cases,
}
use workspace_os.Base.Text.{is_blank}
use workspace_os.Base.Sets.{has}
use workspace_os.Core.Member.{Member}
use workspace_os.Core.WorkItem.{WorkItem, claimed}
use workspace_os.Adapters.Board.{
  Row, insert_row, order_rows, where_rows, row_is_open, to_work_items, list_open, is_before,
  update_row, fits_integer, priority_out_of_range,
}
use workspace_os.Adapters.Board.Claims.{
  IsReadable, upsert-IsReadable, update_row-IsReadable, item_of, read_row, claimed_item,
  claim_next_known,
}
use workspace_os.Server.WorkItems.{
  Tables, Draw, Handled, Reply, PublishBody, sent, text_or_null, publish, publish_title, list_items,
  claim_next_item, integer_or_zero, board_error,
}
use workspace_os.Server.WorkItems.Laws.{logged, report_known}
use workspace_os.Server.WorkItems.Publishing.{
  integer_ok, id_not_blank, published, publish_fits, publish_wide,
}
use workspace_os.Base.Int.{ℤ}
use workspace_os.Base.Number.{as_integer}
use mathlib.Core.Path.{subst}
use workspace_os.Server.System.Stored.{IsActed, All-append}

pub record IsSoundTables (t : Tables) : Type 0 where
  pub readable : All IsReadable t.rows
  pub acted : All (IsActed t.members) t.log

-- A response was sent, and the tables are sound; the members are not touched.
pub record Succeeds (t : Tables) (out : Handled) : Type 0 where
  pub reply : Reply
  pub answered : out.0 ≡ ok reply
  pub same : out.1.members ≡ t.members
  pub sound : IsSoundTables out.1

-- A request to publish succeeds, or the priority that it asks for does not fit its column.
pub data PublishEnds (body : PublishBody) (t : Tables) (out : Handled) : Type 0 where
  published_or_refused : Succeeds t out → PublishEnds body t out
  too_wide :
      (z : ℤ)
      → as_integer (integer_or_zero body.priority) ≡ some z
      → fits_integer z ≡ false
      → out ≡ (err (board_error (priority_out_of_range z)), t)
      → PublishEnds body t out

pub stays : (t : Tables) (reply : Reply) → IsSoundTables t → Succeeds t (ok reply, t)
stays t reply h = record { reply = reply; answered = refl; same = refl; sound = h }

pub reports :
    (draw : Draw) (m : Member) (action : String) (code : ℕ) (item : WorkItem) (t : Tables)
    (rows : List Row)
    → has t.members m.id ≡ true
    → All IsReadable rows
    → IsSoundTables t
    → Succeeds t (
      ok (sent code item),
      record t { rows = rows; log = t.log ++ logged draw m action item ∷ [] },
    )
reports draw m action code item t rows known readable h = record {
  reply = sent code item;
  answered = refl;
  same = refl;
  sound = record {
    readable = readable;
    acted = All-append (IsActed t.members) t.log (logged draw m action item) h.acted known;
  };
}

pub publish-ends :
    (draw : Draw) (m : Member) (body : PublishBody) (t : Tables)
    → has t.members m.id ≡ true
    → IsSoundTables t
    → PublishEnds body t (publish draw (some m) body t)
unfolding publish publish_title
publish-ends draw m body t known h = elim (Option-cases (text_or_null body.title)) [
  | inl missing ↦ published_or_refused (rw (missing, publish_title) (stays t _ h))
  | inr (title, given) ↦ elim (Bool-cases (is_blank title)) [
    | inl blank ↦ published_or_refused (rw (given, publish_title) (rw blank (stays t _ h)))
    | inr named ↦
        let (z, whole) = integer_ok body.priority in
        let item = published draw body title z in
        elim (Bool-cases (fits_integer z)) [
          | inr wide ↦
              too_wide z whole wide (publish_wide draw m body title z t given named whole wide)
          | inl fits ↦ published_or_refused (
              subst (Succeeds t)
                (sym (publish_fits draw m body title z t given named whole fits known))
                (reports draw m "publish" 201 item t _ known
                  (upsert-IsReadable item draw.now t.rows (id_not_blank draw.id, named, fits)
                    h.readable)
                  h))
        ]
  ]
]

insert-IsReadable :
    (x : Row) (rows : List Row)
    → IsReadable x
    → All IsReadable rows
    → All IsReadable (insert_row x rows)
unfolding insert_row
insert-IsReadable x [] h hs = (h, tt)
insert-IsReadable x (y ∷ ys) h (hy, hs) = elim (Bool-cases (is_before y x)) [
  | inl before ↦ rw before (hy, insert-IsReadable x ys h hs)
  | inr after ↦ rw after (h, (hy, hs))
]

order-IsReadable : (rows : List Row) → All IsReadable rows → All IsReadable (order_rows rows)
unfolding order_rows
order-IsReadable [] h = tt
order-IsReadable (x ∷ xs) (h, hs) = insert-IsReadable x (order_rows xs) h (order-IsReadable xs hs)

where-IsReadable :
    (test : Row → Bool) (rows : List Row)
    → All IsReadable rows
    → All IsReadable (where_rows test rows)
unfolding where_rows
where-IsReadable test [] h = tt
where-IsReadable test (x ∷ xs) (h, hs) = elim (Bool-cases (test x)) [
  | inl passes ↦ rw passes (h, where-IsReadable test xs hs)
  | inr fails ↦ rw fails (where-IsReadable test xs hs)
]

pub read_rows : (rows : List Row) → All IsReadable rows → to_work_items rows ≡ ok (map item_of rows)
unfolding to_work_items
read_rows [] h = refl
read_rows (x ∷ xs) (h, hs) = rw (read_row x h, read_rows xs hs)

pub list_items-Succeeds :
    (m : Member) (t : Tables) → IsSoundTables t → Succeeds t (list_items (some m) t)
unfolding list_items list_open
list_items-Succeeds m t h =
    rw
      (
        read_rows (order_rows (where_rows row_is_open t.rows))
            (order-IsReadable _ (where-IsReadable row_is_open t.rows h.readable)),
        list_items,
      )
      (stays t _ h)

pub claim_next-Succeeds :
    (draw : Draw) (locked : List String) (m : Member) (t : Tables)
    → has t.members m.id ≡ true
    → IsSoundTables t
    → Succeeds t (claim_next_item draw locked (some m) t)
unfolding claim_next_item
claim_next-Succeeds draw locked m t known h =
    elim (claim_next_known t.members m locked t.rows h.readable known) [
      | inl (no_candidate, e) ↦ rw (e, claim_next_item) (stays t _ h)
      | inr (row, takes, e) ↦
          rw (e, claim_next_item)
            (rw
              (report_known draw m "claim" 200 (claimed_item row m)
                (record t { rows = update_row row.id claimed (some m.id) t.rows }) known)
              (reports draw m "claim" 200 (claimed_item row m) t _ known
                (update_row-IsReadable row.id claimed (some m.id) t.rows h.readable) h))
    ]
