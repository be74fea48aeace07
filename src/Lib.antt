-- ===== src/Lib.antt =====
-- The client library fing for the database FairyDB. A program opens a connection (src/client.rs)
-- and gives it SQL text. The statement guard (src/sql.rs) looks at the text first; the command is
-- then encoded and written (src/codec.rs, over the types of src/protocol.rs), the response is read
-- back behind its length, and a result set is handed out as rows (src/rows.rs) over a schema
-- (src/schema.rs), whose values (src/value.rs) are read as types of the program's (src/convert.rs).
-- The errors of all this are in src/error.rs.
--
-- The files, each with its children:
--   Base        shared names, lists and tests over the native numbers, signed integers and machine
--               words (Base.Int), text and UTF-8 (Base.Text), decimal numbers (Base.Decimal,
--               and their digits in Base.Decimal.Digits).
--   Error       src/error.rs. `C` stands for `serde_cbor::Error`. `Run` is code that may panic.
--   Value       src/value.rs; Value.Date is `civil_from_days`, Value.Decimal `format_decimal`.
--               Value.Calendar has the rules of the calendar, and Value.Eras, Months, Civil,
--               Machine, Dates and Past compare the two. Value.Written is about decimals.
--   Schema      src/schema.rs; `index_of` is a first search and a loop, as there.
--   Protocol    src/protocol.rs: the wire types.
--   Convert     src/convert.rs: each impl of `FromValue` is a function from a value.
--   Rows        src/rows.rs. `Row::get` and the indexing panic where `self.values[index]` does;
--               Rows.Access and Rows.Gets are about both. Rows.Display is the table,
--               where `widths[i]` may panic; Rows.Layout describes a table without its code, for
--               Rows.Table, Rows.Cells and Rows.Aligned. Rows.Iterate is about the iterator.
--   Sql         src/sql.rs. Sql.Lexer is one round of the loop in `scan`, Sql the loop, the guard
--               `inspect` and its words; Sql.Tokens describes SQL text as tokens, for Sql.Arms,
--               Sql.Lexed, Sql.Refused and Sql.Guard. Sql.Cuts, Sql.Tokenize and Sql.Unique are about
--               the tokens of an arbitrary text, Sql.Behind about text behind a semicolon; Sql.Case
--               and Sql.CaseArms compare a statement with its upper case.
--   Codec       src/codec.rs over Codec.Transport, the stream; Codec.Frames and Codec.Requests
--               are about each direction, Codec.Streams about what stays of the stream.
--               Codec.Exchange describes a request with its response, failures included, as a
--               relation; its child Sound goes from the relation to the code, Total back.
--   Client      src/client.rs: Client.Outcomes is `Outcome`, Client.Names the text it checks and
--               parses, Client.Connect the builder. Client.Answers says what each response means,
--               Client.Keeps and Client.Wire what may reach the wire. Client.Rules carries a
--               relation through every operation, for Client.Frame and Client.Selected;
--               Client.Spec is the session as its user sees it. Client.Opened,
--               Client.Connected and Client.Sessions start from `connect`; Client.Imported is the count of an import,
--               and Client.Pipeline statements whose responses arrive together. Client.Exchanges
--               says what a response means to each operation, for Client.Operations, and
--               Client.Refused what stops one before it is sent; Client.Complete joins the two over
--               Codec.Exchange. Client.Taken is the answer at the front of a stream, for
--               Client.Served, a whole session, and Client.Late, a response behind its timeout.
--               Client.Ends is `shutdown_server` and `close`. Client.Establish and Client.Connects
--               describe `connect` with all its errors, as relations. Client.Controls adds the
--               guard and the timeouts to a session.
--   Example     examples/basic.rs, a program over the client: Example.Guarded is about what it
--               sends, Example.Printed about what it prints, and Example.Completes about a run to
--               its end.
--
-- The tests that stand at the ends of the source files are translated too, under their names: each
-- is a Boolean, in the child SourceTests of its file (for the client also ServerTests, against the
-- server in FakeServer), and a theorem there says that they are true. A test that takes bytes from
-- `serde_cbor`, a quotient of floats or a date of chrono is a type over those as parameters, which
-- the theorem proves. Left out are those that are about the encoding itself. The
-- modules Tests, and the client's CompleteTests and SessionTests, apply the theorems below to
-- examples.
--
-- Text is the list of its Unicode scalar values, and `as_bytes` is their UTF-8 encoding. A number
-- of the source is a native number, or an integer where it is signed; what an `i64` operation on
-- dates or a cast keeps of a result is written out (`wrap64`, `wrap32`), as in a release build.
-- `usize` has 64 bits.
--
-- The loop of `scan` is a recursion on the accessibility of the bytes that are left, by their
-- number: it takes no fuel. The digits of n take at most n + 1 rounds, which is the fuel of
-- `to_string`.
--
-- A stream holds the bytes that will still arrive, how reading ends behind them, what has been
-- sent, and where writing breaks. A statement about every stream is one about every server and
-- every network failure. Chunks are what one `write_all` hands over.
--
-- Parameters: `serde_cbor` (a type of errors, `to_vec` on commands, `from_slice` on responses), the
-- derived `Debug` text of a response, the network (resolving, opening, and whether `set_nodelay`
-- succeeds), floating point, and `chrono::NaiveDate::from_ymd_opt`. Setting a timeout fails exactly
-- when it is zero, as the standard library documents. Not modelled: the derived serde impls, since
-- the encoding is that package's; allocation; the wake-up connection of `shutdown_server`, whose
-- outcome the code ignores.
pub mod Base
pub mod Error
pub mod Value
pub mod Schema
pub mod Protocol
pub mod Convert
pub mod Rows
pub mod Sql
pub mod Codec
pub mod Client
pub mod Example
