-- ===== src/Net/Error.antt =====
-- The errors of the program: those of the operating system, and the messages of its `anyhow!`.
use simple_forwarder.Text.{Bytes, codes}

pub data Error : Type 0 where
  -- `std::io::Error`, with its text
  io : Bytes → Error
  unexpected_eof connection_reset connection_refused : Error
  -- a message of `anyhow!`, or of `with_context` around it
  message : Bytes → Error

-- `e.to_string()`
unfoldable pub error_text : Error → Bytes
error_text (io text) = text
error_text unexpected_eof = codes "early eof"
error_text connection_reset = codes "Connection reset by peer (os error 104)"
error_text connection_refused = codes "Connection refused (os error 111)"
error_text (message text) = text
