-- ===== src/Server/WorkItems/Publishing.antt =====
-- routes/work-items.ts: what a published item is.
use Prim.Native.String.{◌++◌ as text_append}
use workspace_os.Base.{
  String, true, false, ◌∷◌, [], ◌++◌, none, some, ok, err, ◌≡◌, inl, inr, refl, Option-cases,
}
use workspace_os.Base.Text.{is_blank, is_blank-append, is_white}
use workspace_os.Base.Sets.{has}
use workspace_os.Base.Int.{ℤ, pos}
use workspace_os.Base.Number.{as_integer, as_integer-of_ℤ}
use workspace_os.Core.Member.{Member}
use workspace_os.Core.WorkItem.{WorkItem, opened, create}
use workspace_os.Adapters.Board.{upsert, fits_integer, is_assignable, save, priority_out_of_range}
use workspace_os.Server.WorkItems.{
  Json, PublishBody, Tables, Draw, sent, text_or_null, integer_or_zero, publish_props,
  publish_title, publish, save_and_report, board_error,
}
use workspace_os.Server.WorkItems.Laws.{logged, save_known}

pub integer_ok : (j : Json) → (z : ℤ) × (as_integer (integer_or_zero j) ≡ some z)
integer_ok (Json.text t) = (pos 0, as_integer-of_ℤ (pos 0))
integer_ok Json.absent_or_other = (pos 0, as_integer-of_ℤ (pos 0))
integer_ok (Json.number n) = elim (Option-cases (as_integer n)) [
  | inl e ↦ (pos 0, rw (e, integer_or_zero) (as_integer-of_ℤ (pos 0)))
  | inr (z, e) ↦ (z, rw (e, integer_or_zero) e)
]

pub id_not_blank : (id : String) → is_blank (text_append "w_" id) ≡ false
unfolding is_white
id_not_blank id = is_blank-append _ _ id refl

-- The item that a request publishes, with its priority.
abbrev pub published : Draw → PublishBody → String → ℤ → WorkItem
published draw body title priority = record {
  id = text_append "w_" draw.id;
  title = title;
  priority = priority;
  description = text_or_null body.description;
  required_role = text_or_null body.required_role;
  state = opened;
  assignee_member_id = none;
}

pub created :
    (draw : Draw) (body : PublishBody) (title : String) (z : ℤ)
    → is_blank title ≡ false
    → as_integer (integer_or_zero body.priority) ≡ some z
    → create (publish_props draw.id title body) ≡ ok (published draw body title z)
unfolding create
created draw body title z named whole = rw (id_not_blank draw.id, named, whole)

pub publish_fits :
    (draw : Draw) (m : Member) (body : PublishBody) (title : String) (z : ℤ) (s : Tables)
    → text_or_null body.title ≡ some title
    → is_blank title ≡ false
    → as_integer (integer_or_zero body.priority) ≡ some z
    → fits_integer z ≡ true
    → has s.members m.id ≡ true
    → publish draw (some m) body s ≡ (
      ok (sent 201 (published draw body title z)),
      record s {
        rows = upsert (published draw body title z) draw.now s.rows;
        log = s.log ++ logged draw m "publish" (published draw body title z) ∷ [];
      },
    )
unfolding publish publish_title is_assignable
publish_fits draw m body title z s given named whole fits known =
    rw (given, publish_title)
      (rw (named, created draw body title z named whole)
        (save_known draw m "publish" 201 (published draw body title z) s fits refl known))

pub publish_wide :
    (draw : Draw) (m : Member) (body : PublishBody) (title : String) (z : ℤ) (s : Tables)
    → text_or_null body.title ≡ some title
    → is_blank title ≡ false
    → as_integer (integer_or_zero body.priority) ≡ some z
    → fits_integer z ≡ false
    → publish draw (some m) body s ≡ (err (board_error (priority_out_of_range z)), s)
unfolding publish publish_title save_and_report save
publish_wide draw m body title z s given named whole wide =
    rw (given, publish_title)
      (rw (named, created draw body title z named whole) (rw (wide, save_and_report)))
