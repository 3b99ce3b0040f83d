-- ===== src/Repositories/Categories.antt =====
-- packages/local-data/src/repositories/category.ts: the repository of categories.
pub mod Removing
pub mod Removal
pub mod Removed
pub mod Answers
use trata.Prelude.{
  ℕ, ◌+◌, String, Bool, true, false, not, ◌&&◌, ◌||◌, Option, none, some, List, any, map, select,
  order_by, or_else, is_some, str_eq, if◌then◌else◌,
}
use trata.Prelude.Int.{pos}
use trata.Json.{Json, Fields, text, num, object, field, none_left, has}
use trata.Schema.{category, Row}
use trata.Db.{Db, Host, read_entity_row, is_deleted}
use trata.Catalog.{category_type_values, text_or_null}
use trata.Meta.{get_owner_user_id}
use trata.Repositories.Values.{
  invalid_payload_error, already_exists_error, not_found_error, version_conflict_error,
  referential_integrity_error, Outcome, rejected, done, trim, if_live, has_duplicate, older_first,
  is_empty,
}
use trata.Repositories.Actions.{after_id, counted, is_version, insert_row, change_row}

-- `...(row.slug ? { slug: row.slug } : {})`.
abbrev slug_field : Option String → Fields
slug_field none = none_left
slug_field (some s) = if is_empty s then none_left else field "slug" (text s) none_left

-- `toCategory`, as the payload of an operation.
abbrev pub to_category : Row category → Json
to_category r = object (
    field "id" (text r.id) (
      field "name" (text r.columns.name) (
        field "type" (text r.columns.type) (
          field "icon" (text r.columns.icon) (
            field "color" (text r.columns.color) (
              field "archivedAt" (text_or_null r.columns.archived_at)
                (field "version" (num (pos r.version)) (slug_field r.columns.slug))))))))

-- `hasDuplicateName`.
unfoldable pub has_duplicate_name : Db → String → Option String → Bool
has_duplicate_name db = has_duplicate (λ (c : Row category). c.columns.name) db.tables.categories

-- A live planned payment names the category.
unfoldable pub has_live_plans : Db → String → Bool
has_live_plans db i =
    any (λ p. str_eq p.columns.category_id i && not (is_deleted p)) db.tables.planned_payments

pub record CreateCategoryPayload : Type 0 where
  pub id : Option String
  pub name : Option String
  pub type : String
  pub icon : String
  pub color : String
  pub slug : Option String

abbrev pub new_category : Host → String → String → CreateCategoryPayload → Db → Row category
new_category h i name p db = record {
  id = i;
  columns = record {
    name = name;
    type = p.type;
    icon = p.icon;
    color = p.color;
    archived_at = none;
    slug = p.slug;
  };
  version = 1;
  server_version = 0;
  deleted_at = none;
  created_at = some (h.clock db.calls);
  updated_at = none;
  user_id = get_owner_user_id db;
}

-- The transaction of `create`.
unfoldable pub create_category_row :
    Host → String → String → CreateCategoryPayload → Db → Outcome (Row category)
create_category_row h i name p db =
    if has_duplicate_name db name none
    then rejected already_exists_error
    else elim (read_entity_row db category i) [
      | some _ ↦ rejected already_exists_error
      | none ↦
          let row = new_category h i name p db in
          done row (insert_row h category row (to_category row) (counted db))
    ]

-- `create`.
unfoldable pub create_category : Host → CreateCategoryPayload → Db → Outcome (Row category)
unfolding create_category_row
create_category h p db =
    let name = trim (or_else p.name "") in
    if is_empty name
    then rejected invalid_payload_error
    else if not (has category_type_values p.type)
    then rejected invalid_payload_error
    else if is_empty p.icon
    then rejected invalid_payload_error
    else if is_empty p.color
    then rejected invalid_payload_error
    else create_category_row h (or_else p.id (h.generate_id db.calls)) name p (after_id p.id db)

pub record UpdateCategoryPayload : Type 0 where
  pub name : Option String
  pub type : Option String
  pub icon : Option String
  pub color : Option String
  pub archived : Option Bool
  pub version : Option ℕ

-- `payload.name !== undefined ? payload.name.trim() : row.name`.
abbrev pub next_name : Option String → String → String
next_name none old = old
next_name (some name) old = trim name

abbrev pub next_archived : Host → Option Bool → Option String → Db → Option String
next_archived h none old db = old
next_archived h (some true) old db = some (h.iso (h.clock db.calls))
next_archived h (some false) old db = none

-- Archiving reads the clock.
abbrev pub after_archived : Option Bool → Db → Db
after_archived (some true) db = counted db
after_archived _ db = db

abbrev pub changed_category : Host → UpdateCategoryPayload → Row category → Db → Row category
changed_category h p row db = record row {
  columns = record row.columns {
    name = next_name p.name row.columns.name;
    type = or_else p.type row.columns.type;
    icon = or_else p.icon row.columns.icon;
    color = or_else p.color row.columns.color;
    archived_at = next_archived h p.archived row.columns.archived_at db;
  };
  version = row.version + 1;
}

abbrev pub is_set : Option Bool → Bool
is_set none = false
is_set (some b) = b

-- A name that is given must not be blank, and a type that is given must be one.
abbrev pub is_bad_update : UpdateCategoryPayload → Bool
is_bad_update p =
    not (
      is_some p.name
      || (is_some p.type || (is_some p.icon || (is_some p.color || is_some p.archived))))
    || ((elim p.name [ none ↦ false | some name ↦ is_empty (trim name) ])
        || (elim p.type [ none ↦ false | some t ↦ not (has category_type_values t) ]))

-- The transaction of `update`.
unfoldable pub update_category_row :
    Host → String → UpdateCategoryPayload → Db → Outcome (Row category)
update_category_row h i p db = elim (if_live (read_entity_row db category i)) [
  | none ↦ rejected not_found_error
  | some row ↦
      let name = next_name p.name row.columns.name in
      let next = changed_category h p row db in
      if not (is_version row.version p.version)
      then rejected version_conflict_error
      else if not (str_eq name row.columns.name) && has_duplicate_name db name (some i)
      then rejected already_exists_error
      else if is_set p.archived && has_live_plans db i
      then rejected referential_integrity_error
      else done next
          (change_row h category i next (to_category next) (after_archived p.archived db))
]

-- `update`.
unfoldable pub update_category : Host → String → UpdateCategoryPayload → Db → Outcome (Row category)
unfolding update_category_row
update_category h i p db =
    if is_bad_update p then rejected invalid_payload_error else update_category_row h i p db

-- `getAll`: active categories only.
unfoldable pub get_categories : Db → List Json
get_categories db = map to_category (
    order_by older_first (
      select (λ r. not (is_deleted r) && not (is_some r.columns.archived_at)) db.tables.categories))

-- `getAllIncludingArchived`.
unfoldable pub get_categories_including_archived : Db → List Json
get_categories_including_archived db =
    map to_category (order_by older_first (select (λ r. not (is_deleted r)) db.tables.categories))

-- `getById`.
unfoldable pub get_category_by_id : String → Db → Option Json
get_category_by_id i db = elim (if_live (read_entity_row db category i)) [
  | none ↦ none
  | some r ↦ some (to_category r)
]
