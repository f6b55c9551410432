-- ===== src/Workspaces/Step/Removal.antt =====
-- Requests on workspaces, and the deletion of a task, as steps on the board.
use saa_s_app_be.Prelude.{
  ℕ, String, ◌≡◌, inl, inr, true, false, Option, none, some, arith, eq_iff, Bool-cases,
  Option-cases,
}
use saa_s_app_be.Auth.Model.{RequestUser}
use saa_s_app_be.Action.{Exception, ok, err, Result-cases}
use saa_s_app_be.Files.Cloud.{FileHost}
use saa_s_app_be.Workspaces.Model.{Task, Board, is_done}
use saa_s_app_be.Workspaces.Repository.{
  is_live_in, soft_deleted, find_active_by_id_and_workspace, soft_delete_by_id_and_workspace,
  soft_delete_all_by_workspace, create_workspace_document, delete_workspace_document,
  execute_in_transaction,
}
use saa_s_app_be.Workspaces.Service.{
  is_tenant_member, publish_member_my_tasks_inbox_refresh, assert_workspace_belongs_to_tenant,
  create_workspace, delete_workspace_and_tasks, delete_workspace,
}
use saa_s_app_be.Workspaces.Tasks.{delete_existing, delete_task}
use saa_s_app_be.Workspaces.Step.{Change, kept, removed, swept, task_at}

module _ (fh : FileHost) where
  open fh use {host}
  open host use {mongo}

  -- What a search for a live task of a workspace finds.
  pub record IsFound (task_id workspace_id tenant_id : String) (s : Board fh) (a : Task)
      : Type 0 where
    pub stored : task_at fh task_id s ≡ some a
    pub live : is_live_in workspace_id tenant_id a ≡ true
    pub valid_id : host.is_object_id task_id ≡ true
    pub same_tenant : a.tenant_id ≡ tenant_id
    pub undeleted : a.deleted_at ≡ none

  pub find_active-IsFound :
      (task_id workspace_id tenant_id : String) (s : Board fh) (a : Task)
      → find_active_by_id_and_workspace fh task_id workspace_id tenant_id s ≡ some a
      → IsFound task_id workspace_id tenant_id s a
  unfolding find_active_by_id_and_workspace
  find_active-IsFound task_id workspace_id tenant_id s a h =
      elim (Option-cases (task_at fh task_id s)) [
        | inl missing ↦ absurd (ground arith)
        | inr (b, there) ↦
            let same : b ≡ a = ground arith in
            let live : is_live_in workspace_id tenant_id b ≡ true = ground arith in
            record {
              stored = ground arith;
              live = rw same at live;
              valid_id = ground arith;
              undeleted = ground (arith, rw same at live);
              same_tenant = (eq_iff a.tenant_id tenant_id).0 (ground (arith, rw same at live));
            }
      ]

  pub create_workspace-Change :
      (now : ℕ) (id : String) (user : RequestUser) (name : String) (s : Board fh)
      → Change fh user s (create_workspace fh now id user name s).1
  unfolding create_workspace create_workspace_document
  create_workspace-Change now id user name s = kept (λ j. ground arith) (ground arith)

  module _ (now : ℕ) (user : RequestUser) (workspace_id task_id : String) (s : Board fh) where
    abbrev after_delete : Board fh
    after_delete = (delete_task fh now user workspace_id task_id s).1

    abbrev found : Option Task
    found = find_active_by_id_and_workspace fh task_id workspace_id user.tenant_id s

    delete_task-removed :
        (a : Task)
        → found ≡ some a
        → is_done a.status ≡ false
        → is_tenant_member user ≡ false
        → (assert_workspace_belongs_to_tenant fh workspace_id user.tenant_id s).0 ≡ ok tt
        → Change fh user s after_delete
    unfolding delete_task delete_existing assert_workspace_belongs_to_tenant
        soft_delete_by_id_and_workspace publish_member_my_tasks_inbox_refresh
    delete_task-removed a e open_task admin belongs =
        let f = find_active-IsFound task_id workspace_id user.tenant_id s a e in
        let guard = is_live_in workspace_id user.tenant_id in
        removed task_id now a admin f.stored f.same_tenant f.undeleted open_task
          (λ j. ground (
            arith,
            mongo.find-update_one j task_id guard (soft_deleted now) s.tasks,
            eq_iff task_id j,
            f.stored,
            f.live,
            f.valid_id,
          ))
          (ground (arith, f.valid_id))

    pub delete_task-Change : Change fh user s after_delete
    unfolding delete_task assert_workspace_belongs_to_tenant
    delete_task-Change = elim (Bool-cases (is_tenant_member user)) [
      | inl member ↦ kept (λ j. ground arith) (ground arith)
      | inr admin ↦
          elim (Result-cases
            (assert_workspace_belongs_to_tenant fh workspace_id user.tenant_id s).0) [
              | inr (e, refused) ↦ kept (λ j. ground arith) (ground arith)
              | inl (_, belongs) ↦ elim (Option-cases found) [
                | inl missing ↦ kept (λ j. ground arith) (ground arith)
                | inr (a, there) ↦ elim (Bool-cases (is_done a.status)) [
                  | inl done_task ↦ kept (λ j. ground arith) (ground arith)
                  | inr open_task ↦ delete_task-removed a there open_task admin belongs
                ]
              ]
            ]
    ]

  pub delete_workspace-Change :
      (now : ℕ) (user : RequestUser) (workspace_id : String) (s : Board fh)
      → Change fh user s (delete_workspace fh now user workspace_id s).1
  unfolding delete_workspace assert_workspace_belongs_to_tenant execute_in_transaction
      delete_workspace_and_tasks soft_delete_all_by_workspace delete_workspace_document
  delete_workspace-Change now user workspace_id s =
      elim (Result-cases (delete_workspace fh now user workspace_id s).0) [
        | inr (e, refused) ↦ kept (λ j. ground arith) (ground arith)
        | inl (_, fine) ↦
            let guard = is_live_in workspace_id user.tenant_id in
            swept workspace_id now (ground arith)
              (λ j. ground (arith, mongo.find-update_many j guard (soft_deleted now) s.tasks))
              (ground arith)
      ]

  -- Requests that are refused leave the documents of the board, its events and its pushes.
  abbrev Untouched : (s t : Board fh) → Type 0
  Untouched s t =
      (t.tasks ≡ s.tasks)
      × (t.workspaces ≡ s.workspaces)
      × (t.events ≡ s.events)
      × (t.pushes ≡ s.pushes)

  pub create_workspace_refused :
      (now : ℕ) (id : String) (user : RequestUser) (name : String) (s : Board fh) (e : Exception)
      → (create_workspace fh now id user name s).0 ≡ err e
      → Untouched s (create_workspace fh now id user name s).1
  unfolding create_workspace create_workspace_document
  create_workspace_refused now id user name s e h =
      (ground arith, ground arith, ground arith, ground arith)

  pub delete_workspace_refused :
      (now : ℕ) (user : RequestUser) (workspace_id : String) (s : Board fh) (e : Exception)
      → (delete_workspace fh now user workspace_id s).0 ≡ err e
      → Untouched s (delete_workspace fh now user workspace_id s).1
  unfolding delete_workspace assert_workspace_belongs_to_tenant execute_in_transaction
      delete_workspace_and_tasks soft_delete_all_by_workspace delete_workspace_document
  delete_workspace_refused now user workspace_id s e h =
      (ground arith, ground arith, ground arith, ground arith)

  delete_existing_ok :
      (now : ℕ) (user : RequestUser) (workspace_id task_id : String) (s : Board fh) (a : Task)
      → IsFound task_id workspace_id user.tenant_id s a
      → (delete_existing fh now user workspace_id task_id a s).0 ≡ ok tt
  unfolding delete_existing soft_delete_by_id_and_workspace publish_member_my_tasks_inbox_refresh
  delete_existing_ok now user workspace_id task_id s a f =
      let guard = is_live_in workspace_id user.tenant_id in
      ground (
        arith,
        mongo.update_one_done task_id guard (soft_deleted now) s.tasks,
        f.stored,
        f.live,
        f.valid_id,
      )

  module _ (now : ℕ) (user : RequestUser) (workspace_id task_id : String) (s : Board fh)
      (e : Exception) (refused : (delete_task fh now user workspace_id task_id s).0 ≡ err e) where
    refused_missing :
        find_active_by_id_and_workspace fh task_id workspace_id user.tenant_id s ≡ none
        → (delete_task fh now user workspace_id task_id s).1 ≡ s
    unfolding delete_task assert_workspace_belongs_to_tenant
    refused_missing missing = ground arith

    refused_found :
        (a : Task)
        → find_active_by_id_and_workspace fh task_id workspace_id user.tenant_id s ≡ some a
        → (delete_existing fh now user workspace_id task_id a s).0 ≡ ok tt
        → (delete_task fh now user workspace_id task_id s).1 ≡ s
    unfolding delete_task assert_workspace_belongs_to_tenant
    refused_found a there fine = ground arith

    pub delete_task_refused : (delete_task fh now user workspace_id task_id s).1 ≡ s
    delete_task_refused =
        elim (Option-cases
          (find_active_by_id_and_workspace fh task_id workspace_id user.tenant_id s)) [
            | inl missing ↦ refused_missing missing
            | inr (a, there) ↦ refused_found a there (
                delete_existing_ok now user workspace_id task_id s a
                  (find_active-IsFound task_id workspace_id user.tenant_id s a there))
          ]
