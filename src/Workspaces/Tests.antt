-- ===== src/Workspaces/Tests.antt =====
-- Runs on the board of a small tenant: a task that is done, and one that is not.
use saa_s_app_be.Prelude.{
  ℕ, String, ◌==◌, ◌≡◌, ◌≢◌, refl, eq_iff, true, false, not, is_empty, ◌&&◌, ◌||◌, Option, none,
  some, [], ◌∷◌, arith, if◌then◌else◌,
}
use saa_s_app_be.Action.{ok, err, forbidden, text}
use saa_s_app_be.Mongo.{All}
use saa_s_app_be.Mongo.Insertion.{sorted, by_insertion}
use saa_s_app_be.Mongo.Memory.{empty}
use saa_s_app_be.Host.{Role}
use saa_s_app_be.Auth.Model.{RequestUser}
use saa_s_app_be.Files.Sample.{fh}
use saa_s_app_be.Lists.{has}
use saa_s_app_be.Lists.Laws.{distinct}
use saa_s_app_be.Workspaces.Model.{
  TaskStatus, Task, Workspace, Board, UpdateTaskDto, ListTasksQueryDto,
}
use saa_s_app_be.Workspaces.Repository.{find_workspace}
use saa_s_app_be.Workspaces.Service.{merge_attachment_urls, assert_workspace_belongs_to_tenant}
use saa_s_app_be.Workspaces.Update.{check_request, update_task}
use saa_s_app_be.Workspaces.Attachments.{has_trimmed, merged_attachments}
use saa_s_app_be.Workspaces.Step.{Request, perform, task_at}
use saa_s_app_be.Workspaces.Step.Refinement.{IsUntouched, perform-IsUntouched}
use saa_s_app_be.Workspaces.Step.Rights.{MemberChange, tenant_isolation, member_rights}
use saa_s_app_be.Workspaces.Step.History.{
  Run, start, next, is_done_task, IsRecorded, done_forever, completion_once,
}
use saa_s_app_be.Workspaces.Listing.{TaskPage, page_of, workspace_filter, list_tasks}
use saa_s_app_be.Workspaces.Listing.Visibility.{IsVisible, list_tasks-IsVisible}

abbrev requester : (tenant_id : String) → Role → RequestUser
requester tenant_id role = record {
  user_id = "u1";
  email = "u1@example.com";
  tenant_id = tenant_id;
  platform_admin = false;
  tenant_role = some role;
}

abbrev boss : RequestUser
boss = requester "t1" Role.admin

abbrev worker : RequestUser
worker = requester "t1" Role.member

abbrev task : (id : String) → TaskStatus → Task
task id status = record {
  id = id;
  title = "Report";
  description = none;
  attachment_urls = [];
  status = status;
  assigned_to = some "u1";
  tenant_id = "t1";
  workspace_id = "w1";
  created_by = "u9";
  deleted_at = none;
  created_at = 5;
  updated_at = 5;
}

abbrev task_a : Task
task_a = task "a" TaskStatus.done

abbrev task_b : Task
task_b = task "b" TaskStatus.todo

abbrev office : Workspace
office = record { id = "w1"; tenant_id = "t1"; name = "Office"; created_at = 1; updated_at = 1 }

abbrev board : Board fh
board = record {
  workspaces = ("w1" ∷ [], λ k. if k == "w1" then some office else none);
  tasks = (
    "a" ∷ "b" ∷ [],
    λ k. if k == "a" then some task_a else if k == "b" then some task_b else none,
  );
  users = empty;
  files = record {
    catalog = record { subscriptions = empty; plans = empty };
    assets = empty;
    committed = empty;
    cloud = "";
  };
  events = [];
  pushes = [];
}

abbrev finishing : UpdateTaskDto
finishing = record {
  title = none;
  description = none;
  attachment_urls = none;
  temp_attachment_public_ids = none;
  status = some TaskStatus.done;
  assigned_to = none;
}

abbrev finish_b : RequestUser → Request
finish_b user = Request.update_task 9 (λ p. "u") user "w1" "b" finishing

abbrev reassign : Request
reassign =
    Request.update_task 9 (λ p. "u") worker "w1" "b" (record finishing { assigned_to = some none })

reassign_refused :
    (perform fh reassign board).0 ≡ err (forbidden (text "Members cannot reassign tasks"))
unfolding update_task check_request
reassign_refused = refl

perform-IsUntouched_example : IsUntouched fh board (perform fh reassign board).1
perform-IsUntouched_example =
    perform-IsUntouched fh reassign board (forbidden (text "Members cannot reassign tasks"))
      reassign_refused

other_tenants : ◌≢◌ {A = String} "t1" "t2"
other_tenants h = ground (arith, eq_iff "t1" "t2")

tenant_isolation_example :
    task_at fh "b" (perform fh (finish_b (requester "t2" Role.admin)) board).1 ≡ some task_b
tenant_isolation_example =
    tenant_isolation fh (finish_b (requester "t2" Role.admin)) board "b" task_b refl other_tenants

member_rights_example :
    MemberChange fh "u1" (some task_b) (task_at fh "b" (perform fh (finish_b worker) board).1)
member_rights_example = member_rights fh (finish_b worker) board "b" refl

abbrev after_two : Board fh
after_two =
    (perform fh (Request.delete_task 10 boss "w1" "a") (perform fh (finish_b boss) board).1).1

abbrev two_requests : Run fh board after_two
two_requests = next (next start (finish_b boss)) (Request.delete_task 10 boss "w1" "a")

done_forever_example : is_done_task (task_at fh "a" after_two) ≡ true
done_forever_example = done_forever fh board after_two "a" two_requests refl

board-IsRecorded : (j : String) → IsRecorded fh board j
board-IsRecorded j = record {
  filed = ground (arith, eq_iff j "a", eq_iff j "b", eq_iff "a" j, eq_iff "b" j);
  announced = ground arith;
}

completion_once_example : IsRecorded fh after_two "b"
completion_once_example = completion_once fh board after_two two_requests board-IsRecorded "b"

merged_attachments_example :
    (distinct (merge_attachment_urls ("x" ∷ " y" ∷ []) ("y" ∷ "" ∷ [])) ≡ true)
    × ((url : String)
        → has url (merge_attachment_urls ("x" ∷ " y" ∷ []) ("y" ∷ "" ∷ [])) ≡ (
            not (is_empty url)
            && (has_trimmed url ("x" ∷ " y" ∷ []) || has_trimmed url ("y" ∷ "" ∷ []))))
merged_attachments_example = merged_attachments ("x" ∷ " y" ∷ []) ("y" ∷ "" ∷ [])

abbrev no_score : String → Task → Option ℕ
no_score search t = none

abbrev query : ListTasksQueryDto
query = record { status = none; assigned_to = none; search = none; page = none; limit = some 1 }

abbrev first_page : TaskPage
first_page =
    page_of no_score fh by_insertion (workspace_filter no_score fh worker "w1" query) 1 1 board

page_listed : (list_tasks no_score fh by_insertion worker "w1" query board).0 ≡ ok first_page
unfolding list_tasks sorted assert_workspace_belongs_to_tenant find_workspace
page_listed = refl

list_tasks-IsVisible_example : All (IsVisible worker "w1") first_page.items
list_tasks-IsVisible_example =
    list_tasks-IsVisible no_score fh by_insertion worker "w1" query board first_page page_listed
