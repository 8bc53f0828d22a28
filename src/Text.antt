-- ===== src/Text.antt =====
-- C strings and buffers as lists of bytes, with the calls of <string.h>, <strings.h> and <stdio.h>
-- that rootsh makes. A C string is the list of its bytes before the closing NUL.
mod Search
mod Copy
mod Format
unfoldable pub use Search.*
unfoldable pub use Copy.*
unfoldable pub use Format.*
