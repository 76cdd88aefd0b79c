-- ===== src/Go.antt =====
-- What the program uses of the Go language and its standard library: `int64` arithmetic, errors,
-- `encoding/binary`, `encoding/hex`, `bufio` and `io` over one connection.
pub mod Int64
pub mod Errors
pub mod Binary
pub mod Hex
pub mod Copy
pub mod Loops
pub mod Results
pub mod Io
pub mod Conn
