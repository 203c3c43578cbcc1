-- ===== src/Sql/Query.antt =====
-- lib/sqlite/sqlite.select.c, sqlite.insert.c, sqlite.update.c, sqlite.delete.c and the texts of
-- queries. A step that would write or read behind a block is `none`. Where the code prints a block
-- to itself, `sprintf(s, "%s…", s, …)`, the text is extended, which is what glibc does.
-- The blocks of the values, which are one byte too short in the source, are taken as long enough.
use itba_os_tp1_ipc_2016_q.Base.{
  ℕ, List, [], ◌∷◌, ◌++◌, Option, none, some, Bytes, codes, ltb, if◌then◌else◌, length, ◌>>=◌,
}

abbrev pub max_query_length : ℕ
max_query_length = 1024

abbrev pub max_name_length : ℕ
max_name_length = 16

abbrev pub max_columns : ℕ
max_columns = 10

abbrev pub where_length : ℕ
where_length = 894

-- A text that is printed to a block of that many bytes, with its terminator.
unfoldable pub fit : ℕ → Bytes → Option Bytes
fit size s = if ltb (length s) size then some s else none

-- The entries are those before the first null pointer; a table that was not set is `none`.
pub record SelectQuery : Type 0 where
  pub table : Option Bytes
  pub atributes : List Bytes
  pub condition : Bytes

pub record InsertQuery : Type 0 where
  pub table : Option Bytes
  pub atributes : List Bytes
  pub values : List Bytes

pub record UpdateQuery : Type 0 where
  pub table : Option Bytes
  pub atributes : List Bytes
  pub values : List Bytes
  pub condition : Bytes

pub record DeleteQuery : Type 0 where
  pub table : Option Bytes
  pub condition : Bytes

unfoldable pub create_select_query : SelectQuery
create_select_query = record { table = none; atributes = []; condition = codes "1=1" }

unfoldable pub set_select_query_table : SelectQuery → Bytes → Option SelectQuery
set_select_query_table query table = do
  name ← fit max_name_length table
  some (record query { table = some name })

-- With all the columns in use the search for a free one goes on behind the array.
unfoldable pub set_select_query_atribute : SelectQuery → Bytes → Option SelectQuery
set_select_query_atribute query atribute =
    if ltb (length query.atributes) max_columns
    then some (record query { atributes = query.atributes ++ atribute ∷ [] })
    else none

-- The text of a condition with another one.
unfoldable pub and_where : Bytes → Bytes → Bytes → Bytes → Bytes
and_where condition column op raw_value =
    condition ++ (codes " AND " ++ (column ++ (codes " " ++ (op ++ (codes " " ++ raw_value)))))

unfoldable pub set_select_query_where : SelectQuery → Bytes → Bytes → Bytes → Option SelectQuery
set_select_query_where query column op raw_value = do
  condition ← fit where_length (and_where query.condition column op raw_value)
  some (record query { condition = condition })

-- The entries with commas between them. The code leaves the block as it was for no entry, and is
-- never called so.
unfoldable pub join_fields : List Bytes → Bytes
join_fields [] = []
join_fields (f ∷ []) = f
join_fields (f ∷ g ∷ fields) = f ++ (codes "," ++ join_fields (g ∷ fields))

unfoldable pub to_fields_string : List Bytes → Option Bytes
to_fields_string fields = fit max_query_length (join_fields fields)

-- Without attributes, all the columns.
abbrev pub or_all : List Bytes → List Bytes
or_all [] = codes "*" ∷ []
or_all (a ∷ atributes) = a ∷ atributes

unfoldable pub select_query_to_str : SelectQuery → Option Bytes
select_query_to_str query = do
  table ← query.table
  fields ← to_fields_string (or_all query.atributes)
  fit max_query_length (
      codes "SELECT "
      ++ (fields
          ++ (codes " FROM " ++ (table ++ (codes " WHERE " ++ (query.condition ++ codes ";"))))))

-- The entries of a query that needs at least one: for none the code sets `errno` to
-- `ERR_NO_ATRIBUTE_NOR_VALUE` and gives a null pointer, which is `none` here too.
unfoldable pub some_fields : List Bytes → Option (List Bytes)
some_fields [] = none
some_fields (f ∷ fields) = some (f ∷ fields)

unfoldable pub create_insert_query : InsertQuery
create_insert_query = record { table = none; atributes = []; values = [] }

unfoldable pub set_insert_query_table : InsertQuery → Bytes → Option InsertQuery
set_insert_query_table query table = do
  name ← fit max_name_length table
  some (record query { table = some name })

unfoldable pub set_insert_query_value : InsertQuery → Bytes → Bytes → Option InsertQuery
set_insert_query_value query atribute value =
    if ltb (length query.atributes) max_columns
    then some (record query {
      atributes = query.atributes ++ atribute ∷ [];
      values = query.values ++ value ∷ [];
    })
    else none

unfoldable pub insert_query_to_str : InsertQuery → Option Bytes
insert_query_to_str query = do
  table ← query.table
  atributes ← some_fields query.atributes
  fields ← to_fields_string atributes
  values ← to_fields_string query.values
  fit max_query_length (
      codes "INSERT INTO "
      ++ (table ++ (codes "(" ++ (fields ++ (codes ") VALUES(" ++ (values ++ codes ");"))))))

unfoldable pub create_update_query : UpdateQuery
create_update_query = record { table = none; atributes = []; values = []; condition = codes "1=1" }

unfoldable pub set_update_query_table : UpdateQuery → Bytes → Option UpdateQuery
set_update_query_table query table = do
  name ← fit max_name_length table
  some (record query { table = some name })

unfoldable pub set_update_query_value : UpdateQuery → Bytes → Bytes → Option UpdateQuery
set_update_query_value query atribute value =
    if ltb (length query.atributes) max_columns
    then some (record query {
      atributes = query.atributes ++ atribute ∷ [];
      values = query.values ++ value ∷ [];
    })
    else none

unfoldable pub set_update_query_where : UpdateQuery → Bytes → Bytes → Bytes → Option UpdateQuery
set_update_query_where query column op raw_value = do
  condition ← fit where_length (and_where query.condition column op raw_value)
  some (record query { condition = condition })

-- The settings `column=value` of an update.
unfoldable pub settings : List Bytes → List Bytes → List Bytes
settings [] values = []
settings (a ∷ atributes) [] = []
settings (a ∷ atributes) (v ∷ values) = (a ++ (codes "=" ++ v)) ∷ settings atributes values

unfoldable pub update_query_to_str : UpdateQuery → Option Bytes
update_query_to_str query = do
  table ← query.table
  atributes ← some_fields query.atributes
  fields ← to_fields_string (settings atributes query.values)
  fit max_query_length (
      codes "UPDATE "
      ++ (table
          ++ (codes " SET " ++ (fields ++ (codes " WHERE " ++ (query.condition ++ codes ";"))))))

unfoldable pub create_delete_query : DeleteQuery
create_delete_query = record { table = none; condition = codes "1=1" }

unfoldable pub set_delete_query_table : DeleteQuery → Bytes → Option DeleteQuery
set_delete_query_table query table = do
  name ← fit max_name_length table
  some (record query { table = some name })

-- A condition takes the place of the one before.
unfoldable pub set_delete_query_where : DeleteQuery → Bytes → Option DeleteQuery
set_delete_query_where query condition = do
  text ← fit where_length condition
  some (record query { condition = text })

unfoldable pub delete_query_to_str : DeleteQuery → Option Bytes
delete_query_to_str query = do
  table ← query.table
  fit max_query_length
      (codes "DELETE FROM " ++ (table ++ (codes " WHERE " ++ (query.condition ++ codes ";"))))
