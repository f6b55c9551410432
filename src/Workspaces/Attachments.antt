-- ===== src/Workspaces/Attachments.antt =====
-- The attachments of a task, as `mergeAttachmentUrls` of workspace/workspace.service.ts joins them.
use saa_s_app_be.Prelude.{
  String, ◌≡◌, Bool, true, false, not, ◌&&◌, ◌||◌, ◌==◌, List, [], ◌∷◌, ◌++◌, arith, eq_iff,
  is_empty,
}
use saa_s_app_be.Text.{trim}
use saa_s_app_be.Lists.{has, filled_items}
use saa_s_app_be.Lists.Laws.{distinct, distinct-unique, has-unique, has-append}
use saa_s_app_be.Workspaces.Service.{merge_attachment_urls}

-- whether a text is an item of a list, but for the blanks around the item
abbrev pub has_trimmed : String → List String → Bool
has_trimmed s [] = false
has_trimmed s (x ∷ xs) = (trim x == s) || has_trimmed s xs

has-trimmed_items :
    (s : String) (xs : List String)
    → has s (filled_items xs) ≡ (not (is_empty s) && has_trimmed s xs)
unfolding filled_items
has-trimmed_items s [] = ground arith
has-trimmed_items s (x ∷ xs) = ground (arith, has-trimmed_items s xs, eq_iff (trim x) s)

-- The attachments of a task and those just finalized are joined to a list in which none stands twice,
-- and which has a URL exactly if it is not empty and one of the two lists has it, trimmed.
pub merged_attachments :
    (base appended : List String)
    → (distinct (merge_attachment_urls base appended) ≡ true)
      × ((url : String)
          → has url (merge_attachment_urls base appended)
            ≡ (not (is_empty url) && (has_trimmed url base || has_trimmed url appended)))
unfolding merge_attachment_urls
merged_attachments base appended =
    let both = filled_items base ++ filled_items appended in
    (
      distinct-unique both,
      λ url. ground (
        arith,
        has-unique url both,
        has-append url (filled_items base) (filled_items appended),
        has-trimmed_items url base,
        has-trimmed_items url appended,
      ),
    )
