-- ===== src/Lib.antt =====
-- tiders-core: decoding and querying of blockchain data as Arrow record batches. The development
-- models the crates whose own logic is in the code and not in the libraries they call.
--
-- The parts of the program and how they interact. `ingest` takes a query, says which tables and fields
-- to fetch from a provider, and filters the tables that come back by the query engine of `query`: it
-- converts the query of a chain to a generic one (`evm_query_to_generic`, `svm_query_to_generic`), and
-- the engine selects rows of named tables by filters on columns, adds the rows of other tables that join
-- with them, and projects the columns that were asked for. `evm-schema` and `svm-schema` say which
-- columns these tables have, and hold the builders that collect their rows. `svm-decode` turns the bytes
-- of Solana instructions and logs into typed values, by a description of the types that the caller
-- gives, and these into a record batch. `evm-decode` and `cast` decode and convert the columns of such
-- tables.
--
-- Where each part is modelled:
--   Base: results, lists, bytes, integers and the ordered map (`BTreeMap`) that the parts share.
--   Svm/Types, Svm/Deserialize: svm-decode/src/deserialize.rs. A slice is the list of its bytes and a
--     call returns the bytes that it left over. `DynType` and `DynValue` have the constructors of the
--     source; the vectors inside them are data types of their own. `deserialize_value` and
--     `deserialize_data` have the names of the source; each branch of the match that does more than
--     call itself is a `read_…` function. Svm/Deserialize/Format describes the wire format as a
--     relation between a type, a value and bytes, apart from the code.
--   Svm/ArrowConverter: svm-decode/src/arrow_converter.rs. `to_arrow_dtype`, and in
--     Svm/ArrowConverter/Nested `to_arrow` with the functions below it. `to_list`, `to_struct`,
--     `to_enum` and `to_option` take the converters of the inner types in place of the types, as an
--     enum is converted by way of a struct type that the code makes up on the way. Typed says which
--     values have which type and which types are supported, and the other files follow the code.
--   Arrow: the arrays, Boolean masks and record batches of the arrow crate as far as the source looks
--     into them (Data, Types), the functions of that crate that the source calls, as a record of
--     operations with the laws its documentation states (Kernels for the compute functions, Builders for
--     the construction of arrays), and concrete values that meet the laws (Reference, Shapes).
--   Query/Filter, Query/Engine, Query/Run, Query/Request: query/src/lib.rs. Filter has `Contains`,
--     `StartsWith` and `Filter::check`; Engine has `run_table_selection` and
--     `columns_to_binary_array`; Run has `select_fields` and `run_query`; Request has
--     `add_request_and_include_fields`. The hash table of hashbrown and the xxh3 hash are an interface
--     with laws (Query/Hashing), for which Query/Reference gives one concrete value.
--   Ingest: ingest/src/lib.rs, ingest/src/evm.rs, ingest/src/svm.rs and ingest/src/provider/common.rs.
--     Serde has what the derived `Serialize` writes for a struct of flags, and `field_selection_to_set`;
--     Evm and Svm have the queries of the two chains, and Selections below them the structs of their
--     selections and fields, one file for each table; Common has the conversions to a generic query
--     (Common/Evm, Common/Svm); LastBlock has `extract_last_block` and its variant for Solana. Known
--     compares the converted queries with the columns of the schemas, and Fetched looks at the tables
--     that the requests of an EVM query bring along.
--   Schema: evm-schema/src/lib.rs and svm-schema/src/lib.rs. Rows has fields, schemas and builders of
--     columns; Evm and Svm have the schema functions, and below them one file for each table with its
--     builder and `finish`.
--   Svm/Decode: svm-decode/src/lib.rs, as far as instructions and logs and the batches of their
--     decoded values: `decode_instruction` and `decode_log` are one round of the loops, Svm/Decode/Batches
--     builds the batches, and Svm/Decode/Discriminator has the filter that runs before them.
--   Cast: cast/src/lib.rs, as far as `cast`, `cast_by_type` and the schema functions. The casts of arrow
--     and the construction of a record batch are a record of operations with laws.
--
-- Bounds and fuel. A machine integer is a natural number, or an integer, read from its bytes, so its
-- range is that of the bytes. The size in bytes of a fixed array is a product of two usize, and wraps
-- around at 2^64 as in a release build; a debug build panics there. `chunks` runs on fuel, the number
-- of bytes that are left, and each round takes a chunk of at least one byte when there is one, as the
-- element types have at least one byte. `decimal`, which prints a number for a name, runs on fuel one
-- above the number, which its digits never exceed. All other loops are recursions on the list, the
-- number or the type that they run over. `u32 as usize` changes nothing on the 64-bit targets assumed.
-- The offsets of arrow's lists and binary values are i32, and arrow panics where one overflows: its laws
-- are stated below that bound, and Svm/ArrowConverter/Offsets says which rows stay below it.
-- Capacities that are reserved in advance, and running out of memory, are not modelled.
--
-- Errors keep the data that their messages print, and not the text or the context added on the way.
-- Parallel iterators are run in order: where several of their items fail, the model returns the first
-- error, and the code may return another one of them. An `unwrap` that fails is an error value, where
-- the code panics.
--
-- Not modelled: in svm-decode, the functions that take and return whole record batches
-- (`decode_instructions_batch`, `decode_logs_batch`), with the columns of the accounts and the joining
-- of columns; evm-decode; the encodings and the flattening in cast; in ingest, the providers with their
-- network clients, the requests made for them and `start_stream`; the Python bindings.
pub mod Base
pub mod Svm
pub mod Arrow
pub mod Query
pub mod Cast
pub mod Ingest
pub mod Schema
