-- ===== src/Session/Invariant.antt =====
-- What holds of a session between two calls, and that one more operation keeps it.
use crdt_networking_applicat.Prelude.{
  ◌≡◌, ◌≢◌, refl, sym, subst, ◌∙◌, inl, inr, List, [], ◌∷◌, ◌++◌, In, if_pos, if_neg,
}
use crdt_networking_applicat.Prelude.Maps.{Map, contains, same_key}
use crdt_networking_applicat.Ids.{ElementId, id_key, text_key}
use crdt_networking_applicat.Operation.{RemoveOperation, Operation, insert, remove}
use crdt_networking_applicat.Outcome.{done}
use crdt_networking_applicat.Text.{Bytes}
use crdt_networking_applicat.Document.{Document, new_document}
use crdt_networking_applicat.IdGenerator.{IdGenerator}
use crdt_networking_applicat.Document as Doc
use crdt_networking_applicat.Document.Invariant.{Has}
use crdt_networking_applicat.Document.Walk.Anchors.{
  IsAnchor, IsAnchor-Has, visible_predecessor-IsAnchor,
}
use crdt_networking_applicat.Cursor.{Cursor, set_anchor, update_on_remote, update_on_delete}
use crdt_networking_applicat.Session.{EditorSession, leave_target}
use crdt_networking_applicat.Session.Steps.{After, In-last, Has-After, IsAnchor-After}

abbrev pub history : EditorSession → List Operation
history s = s.log.operation_history

abbrev pub AllHere : Document → Map Bytes ElementId → Type 0
AllHere d m = (id : Bytes) (x : ElementId) → In (id, x) m → Has d x

-- The document is the one that the log's history builds, the texts that were applied are those that
-- are recorded, and the remote cursors stand at elements that are there.
pub record Sound (s : EditorSession) : Type 0 where
  pub holds : After (history s) s.doc
  pub replay : Doc.apply_history (history s) new_document ≡ done s.doc
  pub texts : (t : Bytes) → contains t s.applied_operations ≡ contains t s.log.recorded_operations
  pub remotes : AllHere s.doc s.remote_cursors

-- The session's own cursor stands where it may.
pub record SessionInv (s : EditorSession) : Type 0 where
  pub sound : Sound s
  pub stands : IsAnchor s.doc s.cursor.anchor

-- The cursor and the generator may change, if the cursor stands where it may.
pub moved_inv :
    (s : EditorSession) (c : Cursor) (g : IdGenerator)
    → SessionInv s
    → IsAnchor s.doc c.anchor
    → SessionInv (record s { cursor = c; gen = g })
moved_inv s c g i a = record {
  sound = record {
    holds = i.sound.holds;
    replay = i.sound.replay;
    texts = i.sound.texts;
    remotes = i.sound.remotes;
  };
  stands = a;
}

module _ (h : List Operation) (op : Operation) {d d' : Document} (v : After h d)
    (v' : After (h ++ op ∷ []) d') where
  grows : (op' : Operation) → In op' h → In op' (h ++ op ∷ [])
  grows op' m = (In-last op h op').1 (inr m)

  pub Has-later : (x : ElementId) → Has d x → Has d' x
  Has-later x = Has-After h (h ++ op ∷ []) v v' grows x

  -- An element that the new operation does not remove stays where a cursor may stand.
  pub IsAnchor-later :
      (x : ElementId) → IsAnchor d x → op ≢ remove (record { the_target = x }) → IsAnchor d' x
  IsAnchor-later x a n = IsAnchor-After h (h ++ op ∷ []) v v' grows x a λ m.
      elim ((In-last op h (remove (record { the_target = x }))).0 m) [
        | inl e ↦ absurd (n (sym e))
        | inr k ↦ k
      ]

update_on_delete-IsAnchor :
    (h : List Operation) (o : RemoveOperation) {d d' : Document}
    → After h d
    → After (h ++ remove o ∷ []) d'
    → (c : Cursor) → IsAnchor d c.anchor
    → (c' : Cursor) × (update_on_delete d' o c ≡ done c') × IsAnchor d' c'.anchor
unfolding update_on_delete
update_on_delete-IsAnchor h o {d} {d'} v v' c a = elim (same_key o.the_target c.anchor) [
  | no n ↦ (
    c,
    if_neg (same_key o.the_target c.anchor) n _ _,
    IsAnchor-later h (remove o) v v' c.anchor a (λ e. n (cc e)),
  )
  | yes q ↦
      let there = subst (Has d) (sym q) (IsAnchor-Has v c.anchor a) in
      let (p, found, good) =
        visible_predecessor-IsAnchor v' o.the_target
          (Has-later h (remove o) v v' o.the_target there) in
      (set_anchor p c, if_pos (same_key o.the_target c.anchor) q _ _ ∙ rw found, good)
]

-- A remote operation leaves the cursor where it may stand.
pub update_on_remote-IsAnchor :
    (h : List Operation) (op : Operation) {d d' : Document}
    → After h d
    → After (h ++ op ∷ []) d'
    → (c : Cursor) → IsAnchor d c.anchor
    → (c' : Cursor) × (update_on_remote d' op c ≡ done c') × IsAnchor d' c'.anchor
unfolding update_on_remote
update_on_remote-IsAnchor h (insert o) v v' c a =
    (c, refl, IsAnchor-later h (insert o) v v' c.anchor a (λ e. cc e))
update_on_remote-IsAnchor h (remove o) v v' c a = update_on_delete-IsAnchor h o v v' c a

pub leave_target-AllHere :
    (h : List Operation) {d : Document} (t : ElementId) (m : Map Bytes ElementId)
    → After h d
    → AllHere d m
    → (m' : Map Bytes ElementId) × (leave_target d t m ≡ done m') × AllHere d m'
unfolding leave_target
leave_target-AllHere h t [] v a = ([], refl, λ id x m. absurd m)
leave_target-AllHere h {d} t ((k, x) ∷ m) v a =
    let (m', rest, good) = leave_target-AllHere h t m v (λ id y n. a id y (inr n)) in
    elim (same_key x t) [
      | yes q ↦
          let (p, found, there) =
            visible_predecessor-IsAnchor v t (subst (Has d) q (a k x (inl refl))) in
          (
            (k, p) ∷ m',
            if_pos (same_key x t) q _ _ ∙ rw (found, rest),
            λ id y. elim [
              | inl e ↦ subst (Has d) (cc e) (IsAnchor-Has v p there)
              | inr n ↦ good id y n
            ],
          )
      | no n ↦ (
        (k, x) ∷ m',
        if_neg (same_key x t) n _ _ ∙ rw rest,
        λ id y. elim [ inl e ↦ subst (Has d) (cc e) (a k x (inl refl)) | inr i ↦ good id y i ],
      )
    ]
