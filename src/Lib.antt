-- ===== src/Lib.antt =====
-- A verification library for the back end of an insurance administration: the monthly loads of
-- capitated products, the royalties between users and units, the tree of business units with its
-- members, the permissions over business units, and the roles of users.
--
-- Parts and files
--
-- Capitated models common/services/capitated/capitated_batch_processor.py. Capitated/Tables has
-- the rows of common/models that a load reads and writes, Capitated/Session the tables as one
-- state and the queries on it, Capitated/Countries the country codes, Capitated/Sheets the
-- structure of the workbook (_build_sheet_metas, _cell_str). Capitated/Row, Capitated/Persons,
-- Capitated/Contracts, Capitated/Prices and Capitated/Counters are the body of the loop of
-- _process_spreadsheet_rows, Capitated/Process has its loops, the summary and
-- _refresh_contracts_status, Capitated/Excel process_excel with its handler, Capitated/Rollback
-- the rollbacks. A step takes the session and returns a value or an exception together with the
-- session, since what was written before an exception stays written. Capitated/Frame has the rules
-- by which the proofs go over steps, the folders below the components what is proved of them.
--
-- Regalias models common/services/regalias/regalias_service.py: Regalias/UserGraph is the search of
-- _would_create_user_cycle, Regalias/Rules the source types and the rules between units, Regalias
-- itself create_regalia, update_commission and delete_regalia over the tables. Units is the tree of
-- common/models/business_unit.py, which the royalties and the permissions share, and Units/Above
-- the relation between a unit and those above it.
--
-- Permissions models common/services/business_units: Permissions/Levels the levels of one user
-- over a chain of units, Permissions/Resolver business_unit_permission_resolver.py with its caches
-- and the chain of ancestors, Permissions/Abilities business_unit_abilities.py with the cache of
-- its answers.
--
-- Roles models common/services/permission_service.py over the link tables of roles and
-- permissions, and the caches that User.has_role and User.can of common/models/user.py read.
--
-- BusinessUnits models services/capitados/app/controllers/business_units_controller.py over tables
-- of units, members, users, roles and royalties: the module itself has _get_unit, the answers and
-- the rollback of get_db (common/database.py), BusinessUnits/Users the rows of users and roles,
-- BusinessUnits/Listing the listings, BusinessUnits/Crud, Hierarchy, Members and Commissions the
-- handlers that write, BusinessUnits/Requests and BusinessUnits/Register/Requests lists of
-- requests. The proofs stand in BusinessUnits/Forest (hierarchies), Walk (the loop of move), Steps
-- and Inserts (how a handler ends), Tree and Invariant, Conversions, Paging, Reading and Register.
-- It shares the rows of Units and of Regalias.
--
-- Plans models services/products/app/controllers/plan_versions_controller.py over tables of
-- versions and surcharges, and the part of coverages_controller.py beside it that concerns
-- versions: the module itself has the rows, the errors and the look-ups, Plans/Versions the
-- handlers of versions (store, update, destroy), Plans/Clones clone, Plans/Surcharges those of
-- surcharges by age, Plans/Terms those of the terms, Plans/Coverages those of the coverages of a
-- version, Plans/Requests a list of requests. The proofs stand in Plans/Active (the invariant of
-- the versions), Activation, Writes and Table (what each handler keeps of it), Covered, Named and
-- CoverTable (the same for the coverages of versions), Effects, Sole and Again.
--
-- Dates has the calendar that the loads use, Prelude the helpers that all parts share. The modules
-- called Tests apply the theorems to small tables.
--
-- Choices of the model
--
-- A table is a list of rows in the order of insertion, a query a selection from it, and
-- scalar_one_or_none raises on two rows. A query sees what was written before it, as sessions flush
-- before they query. Inserts of persons and monthly records raise where the unique constraints of
-- the tables are broken. After a failed flush process_excel returns a failed batch over the tables
-- from before the load, since the flush of its handler finds nothing to write; that a later commit
-- then raises is left to the caller. Text is a list of code points; case and digits are those of
-- ASCII. Prices, percentages and commissions are integers in the last decimal of their column.
-- int(float(text)) and the rounding of a surcharge are the parameter Floats, of which nothing is
-- assumed. datetime.utcnow() and date.today() are inputs, constant during a call. A country without
-- an iso code has the empty text. The search for cycles has fuel for two turns more than there are
-- relations, and the loading of ancestors for two more than there are units; ancestor_chain has
-- fuel for two turns more than the units that the session holds. That this is enough is stated in
-- the results on termination. The permissions of a user are a list of names, as user.can reads them
-- from its cache; the two levels of the dictionary of cached levels are one dictionary by pairs of
-- ids. The walk of move has fuel for one turn more than there are units. A session keeps the
-- relations of a unit as they were first loaded, so an answer shows the parent's name from before
-- the write. ILIKE and the ORDER BY are parameters of the listings; ORDER BY name leaves rows of
-- the same name in any order. Foreign keys and the lengths of the columns of names are checked
-- where a row is inserted. The column terms_html holds no text, a text that is no JSON object, or
-- an object with the texts of es and en; a price in a request is a number of cents. The statements
-- of an update of a version run before its commit, so a value that no column holds or a key that is
-- not there makes the whole request fail. A version that coverages, or logs and records of loads,
-- name cannot be deleted.
--
-- Not modelled
--
-- Texts for people (rejection_detail, the messages of exceptions), uuids, and the columns of the
-- mixins; the storage and the hash of the uploaded file, the spreadsheet reader and the invoice
-- of the billing service, which are inputs of a load; two rows that already break a rule that
-- check_duplicate enforces; Python's greatest year. The permission check of a route and the
-- toasts of its answer; pdf_preview of the plan versions, which renders a template; of the
-- coverages the catalogue and the list of those that a version may take. The other controllers,
-- the billing, the documents, the tokens and the other services are not modelled.
pub mod Prelude
pub mod Dates
pub mod Units
pub mod Regalias
pub mod Capitated
pub mod Permissions
pub mod Roles
pub mod BusinessUnits
pub mod Plans
