-- ===== src/Audit/Query.antt =====
-- `buildMarkDeletedQuery` of internal/audit/audit.go: the text of the query and its arguments.
pub mod Fill
use Prim.Native.String
use virtwork.Base.{String, List, [], ◌∷◌, ◌++◌, map, ◌==◌, if◌then◌else◌}
use virtwork.Base.Text.Split.{join}

abbrev pub placeholders : List String → List String
placeholders items = map (λ item. "?") items

-- the condition on the type, which is left out for an empty one
abbrev pub type_condition : String → String
type_condition type = if type == "" then "" else " AND resource_type = ?"

abbrev pub type_args : String → List String
type_args type = if type == "" then [] else type ∷ []

abbrev pub mark_deleted_query :
    (table name_col type : String) (names run_ids : List String) → String
mark_deleted_query table name_col type names run_ids = String.◌++◌ "UPDATE " (
    String.◌++◌ table (
      String.◌++◌ " SET status = 'deleted', deleted_at = " (
        String.◌++◌ "?" (
          String.◌++◌ "\n\t\t WHERE " (
            String.◌++◌ name_col (
              String.◌++◌ " IN (" (
                String.◌++◌ (join "," (placeholders names)) (
                  String.◌++◌ ") AND namespace = " (
                    String.◌++◌ "?" (
                      String.◌++◌
                        "\n\t\t   AND audit_id IN (SELECT id FROM audit_log WHERE run_id IN ("
                        (String.◌++◌ (join "," (placeholders run_ids))
                          (String.◌++◌ "))" (type_condition type)))))))))))))

unfoldable pub build_mark_deleted_query :
    (table name_col type : String) (names : List String) (namespace : String)
    (run_ids : List String) (now : String)
    → String × List String
build_mark_deleted_query table name_col type names namespace run_ids now = (
  mark_deleted_query table name_col type names run_ids,
  now ∷ names ++ (namespace ∷ run_ids ++ type_args type),
)
