-- ===== src/Lib.antt =====
-- Tortoise ORM: the parts of tortoise/ that decide what a query means, which connection it uses,
-- and what happens to an object, as executable models.
--
-- The program. A `Model` class (tortoise/models.py) makes query sets (tortoise/queryset.py), which
-- collect `Q` expressions (tortoise/expressions.py). Awaiting a query set chooses a connection
-- (tortoise/router.py, tortoise/connection.py), resolves the expressions into a `QueryModifier`
-- (tortoise/query_utils.py), and has the executor of a backend (tortoise/backends/) run the SQL
-- that pypika writes. Transactions (tortoise/transactions.py, tortoise/backends/base/client.py) put
-- a connection of their own into the context of a task.
--
-- The files.
--   Base: shared names; Base/Dict is Python's dict with text keys in insertion order, Base/Errors the
--     exceptions of tortoise/exceptions.py without their messages, and results, Base/Int Python's int,
--     Base/Keys dicts with keys of any type that has an equality.
--   Criteria: tortoise/query_utils.py. `and_modifiers`, `or_modifiers` and `invert_modifier` are
--     `QueryModifier.__and__`, `__or__` and `__invert__`; `empty` is `EmptyCriterion`. Criteria/Truth
--     and Criteria/Meaning say what a modifier asks of a row.
--   Expressions: `Q` of tortoise/expressions.py. `make_q` is `Q.__init__`, `resolve` is `Q.resolve`.
--     Expressions/Value relates it to a reading of `Q`, Expressions/Operators is about `&`, `|`, `~`.
--   Schema: the order of creation in tortoise/backends/base/schema_generator.py
--     (`get_create_schema_sql`). `create_loop` is its `while` loop.
--   Literals: text in SQL, from tortoise/converters.py, and the patterns of tortoise/filters.py.
--   Filters: the operators of tortoise/filters.py, `apply_operator`; Filters/Tables has the dicts of
--     lookups, `get_filters_for_field` and the others. Filters/Meaning says what they ask of a row.
--   Lookups: a keyword of a filter in tortoise/expressions.py. `resolve_kwarg` is a round of the loop of
--     `Q._resolve_kwargs`, and `process_filter_kwarg` and the others are the methods of those names.
--     Lookups/Resolve is `resolve_filters` of tortoise/queryset.py, and Lookups/Joined says what its
--     joins make of the query.
--   Config: tortoise/backends/base/config_generator.py; Config/Lookup is `DB_LOOKUP`,
--     and Config/Schemes and Config/Server say what the scheme and the parts of a URL are to
--     give.
--   Connections: tortoise/connection.py. The dicts that contexts share stand in a store by address.
--   Transactions: the contexts of tortoise/backends/base/client.py over the `TransactionWrapper` of
--     tortoise/backends/sqlite/client.py; Transactions/Monad is the state that they act on.
--   Queries: tortoise/queryset.py, with `_execute` in Queries/Rows and the derived queries in
--     Queries/Derived. Sets that clones share stand in a store by address.
--   Models: tortoise/models.py, with `get_or_create` in Models/Fetch and `_set_kwargs` in
--     Models/Assign.
--   MetaInfo: the classes `MetaInfo` and `ModelMeta` of tortoise/models.py. `generate_db_fields` is
--     `_generate_db_fields`, MetaInfo/FromDb is `_init_from_db`, and MetaInfo/Create is
--     `ModelMeta.__new__` with `new_model`; Python's classes are trees there.
--   Fields: the constructor and the validation of tortoise/fields/base.py, and validators of
--     tortoise/validators.py. `make_field` is `Field.__init__`, `run_validators` is `Field.validate`.
--     Fields/Data and Fields/Enums are tortoise/fields/data.py: `datetime_to_python` is
--     `DatetimeField.to_python_value`, `timedelta_to_db` is `TimeDeltaField.to_db_value`, and so on.
--   Executor: tortoise/backends/base/executor.py. Executor/Update is `get_update_sql` and
--     `execute_update`, Executor/Insert the inserts, with `chunk` of tortoise/utils.py, and
--     Executor/Prefetch the four prefetches; `prefetch_reverse` is `_prefetch_reverse_relation`, and
--     so on. Executor/Plan is what `prefetch_related` and the executor make of the relations to
--     prefetch. Each has its theorems in the modules below it.
--   Joins: `_get_joins_for_related_field` of tortoise/query_utils.py, and `_join_table_by_field` and
--     `resolve_ordering` of tortoise/queryset.py. A name such as `a__b` is read as a `FieldPath`.
--   Updates: `UpdateQuery` and `BulkUpdateQuery` of tortoise/queryset.py. `make_query` and
--     `make_bulk_query` are their `_make_query`, and Updates/Assign says what a keyword argument is to
--     set.
--   Relations: `ManyToManyRelation` of tortoise/fields/relational.py, on a through table that is any
--     implementation of the record `Through`.
--   Startup: the many-to-many part of `_init_relations` of tortoise/__init__.py. Models stand in a
--     store by app and name; `init_m2m_field` is a round of the loop, `add_field` the method of
--     `MetaInfo` in tortoise/models.py.
--   Router: tortoise/router.py and `_choose_db`.
-- Each part has its runs and witnesses in a module Tests.
--
-- Conventions. A method that changes its object returns the changed object. An exception is a value
-- `err e`; where state survives an exception, the result is paired with the state. Numbers are
-- unbounded, as Python's are. Texts are native strings, or lists of code points in Literals.
--
-- Bounds and fuel. Two loops need fuel. That of `get_create_schema_sql` gets one more than the
-- number of tables, since every round removes a table. That this is enough is a result below.
-- `batched` of tortoise/utils.py gets the length of its list, since each batch takes at least one
-- element. All other loops go over a list.
--
-- What stands outside. pypika's criteria are a record `Pypika`, and how a database reads them is a
-- record `Reading` of the laws of SQL's three-valued logic; Criteria/Sample shows that both can
-- hold. pypika's tables are a record `Tables`, which Joins/Tests fills, and its terms a record
-- `Terms`, with the laws of `RowReading`, which Filters/Sample fills. The database driver says
-- which calls fail. `urllib.parse`, the import of a backend, annotations and the listeners of
-- signals are arguments; so are, for the executor, the related query of a prefetch and the
-- conversions of the fields. Python's own types for dates and the like are the records `Library`
-- and `Functions` of Fields/Data, and its `str`, iteration and `pk` the record `Python` of Lookups.
-- For `Q.resolve` the resolution of a keyword is an argument. What a query or a through table must
-- do for a theorem is a hypothesis of it, and the modules Tests show a list of rows that does so.
--
-- Not modelled: the SQL text of the backends, foreign keys at the start-up, the clients other than
-- SQLite's transactions, and the integrations in tortoise/contrib; of a model's filters, which
-- `add_field` updates too, nothing is kept. Nor are interleavings of tasks: a task that finds a
-- lock held waits, and what other tasks do in the meantime is not followed.
pub mod Base
pub mod Criteria
pub mod Expressions
pub mod Schema
pub mod Literals
pub mod Config
pub mod Connections
pub mod Transactions
pub mod Queries
pub mod Relations
pub mod Models
pub mod MetaInfo
pub mod Router
pub mod Fields
pub mod Executor
pub mod Filters
pub mod Joins
pub mod Lookups
pub mod Updates
pub mod Startup
