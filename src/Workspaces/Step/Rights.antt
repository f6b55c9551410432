-- ===== src/Workspaces/Step/Rights.antt =====
-- Whose tasks a request can touch.
use saa_s_app_be.Prelude.{
  String, ◌==◌, ◌≡◌, ◌≢◌, ◌∙◌, inl, inr, true, Option, some, arith, eq_iff, Bool-cases,
}
use saa_s_app_be.Files.Cloud.{FileHost}
use saa_s_app_be.Auth.Model.{RequestUser}
use saa_s_app_be.Workspaces.Model.{Task, Board}
use saa_s_app_be.Workspaces.Service.{is_tenant_member}
use saa_s_app_be.Workspaces.Step.{
  Request, actor, perform, Change, kept, added, revised, removed, swept, task_at, IsRevision,
  IsOwnRevision,
}
use saa_s_app_be.Workspaces.Step.Refinement.{perform-Change}

module _ (fh : FileHost) where
  other_tenant :
      (user : RequestUser) (s t : Board fh) (k : String) (a : Task)
      → task_at fh k s ≡ some a
      → a.tenant_id ≢ user.tenant_id
      → Change fh user s t
      → task_at fh k t ≡ some a
  other_tenant user s t k a there foreign (kept same _) = same k ∙ there
  other_tenant user s t k a there foreign (added b _ tenant _ fresh at _) =
      ground (arith, at k, eq_iff b.id k)
  other_tenant user s t k a there foreign (revised i b c found tenant _ _ _ at _) =
      elim (Bool-cases (i == k)) [
        | inl same ↦ absurd (foreign (ground (arith, eq_iff i k, found, there)))
        | inr other ↦ ground (arith, at k)
      ]
  other_tenant user s t k a there foreign (removed i now b _ found tenant _ _ at _) =
      elim (Bool-cases (i == k)) [
        | inl same ↦ absurd (foreign (ground (arith, eq_iff i k, found, there)))
        | inr other ↦ ground (arith, at k)
      ]
  other_tenant user s t k a there foreign (swept workspace_id now _ at _) =
      elim (Bool-cases (a.tenant_id == user.tenant_id)) [
        | inl same ↦ absurd (foreign ((eq_iff a.tenant_id user.tenant_id).0 same))
        | inr other ↦ ground (arith, at k)
      ]

  -- A request never changes a task of another tenant than the requester's.
  pub tenant_isolation :
      (request : Request) (s : Board fh) (k : String) (a : Task)
      → task_at fh k s ≡ some a
      → a.tenant_id ≢ (actor request).tenant_id
      → task_at fh k (perform fh request s).1 ≡ some a
  tenant_isolation request s k a there foreign =
      other_tenant (actor request) s (perform fh request s).1 k a there foreign
        (perform-Change fh request s)

  -- What a member may do to the task with an identifier: nothing, or a revision of a task of his own.
  pub data MemberChange (user_id : String) : (before after : Option Task) → Type 0 where
    same : (o : Option Task) → MemberChange user_id o o
    own :
        (a b : Task)
        → IsRevision a b
        → IsOwnRevision user_id a b
        → MemberChange user_id (some a) (some b)

  member_change :
      (user : RequestUser) (s t : Board fh) (k : String)
      → is_tenant_member user ≡ true
      → Change fh user s t
      → MemberChange user.user_id (task_at fh k s) (task_at fh k t)
  member_change user s t k member (kept alike _) = rw (alike k) (MemberChange.same (task_at fh k s))
  member_change user s t k member (added b admin _ _ _ _ _) = absurd (ground arith)
  member_change user s t k member (removed i now b admin _ _ _ _ _ _) = absurd (ground arith)
  member_change user s t k member (swept workspace_id now admin _ _) = absurd (ground arith)
  member_change user s t k member (revised i a b found tenant _ revision right at _) = elim right [
    | inl admin ↦ absurd (ground arith)
    | inr his ↦ elim (Bool-cases (i == k)) [
      | inl this ↦
          let before : task_at fh k s ≡ some a = ground (arith, eq_iff i k, found) in
          let after : task_at fh k t ≡ some b = ground (arith, at k) in
          rw (before, after) (MemberChange.own a b revision his)
      | inr other ↦
          let after : task_at fh k t ≡ task_at fh k s = ground (arith, at k) in
          rw after (MemberChange.same (task_at fh k s))
    ]
  ]

  -- A member of a tenant creates and deletes no task, and changes none but those assigned to him, of
  -- which he changes neither who has it, nor the attachments, nor where it belongs.
  pub member_rights :
      (request : Request) (s : Board fh) (k : String)
      → is_tenant_member (actor request) ≡ true
      → MemberChange
          (actor request).user_id
          (task_at fh k s)
          (task_at fh k (perform fh request s).1)
  member_rights request s k member =
      member_change (actor request) s (perform fh request s).1 k member
        (perform-Change fh request s)
