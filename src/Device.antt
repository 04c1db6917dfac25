-- ===== src/Device.antt =====
-- internal/quictransport/device_errors.go, and isGracefulStreamEnd of server.go.
pub mod Reads
use mvp_vpn_lite.Base.{ℕ, ◌%◌, Bool, true, false, ◌||◌, ◌==◌}
use mvp_vpn_lite.Io.{IoError, eof, closed, application_error, not_pollable}
use mvp_vpn_lite.Framing.{FrameError, io_error}

abbrev pub max_retryable_packet_device_reads : ℕ
max_retryable_packet_device_reads = 100

-- `errors.Is(err, os.ErrClosed)`
unfoldable pub is_closed : IoError → Bool
is_closed closed = true
is_closed _ = false

-- `ctx.Err() != nil` is the first argument.
unfoldable pub is_closed_packet_device_error : Bool → IoError → Bool
unfolding is_closed
is_closed_packet_device_error ctx_done err = ctx_done || is_closed err

unfoldable pub is_retryable_packet_device_read_error : IoError → Bool
is_retryable_packet_device_read_error not_pollable = true
is_retryable_packet_device_read_error _ = false

unfoldable pub should_log_retryable_packet_device_read : ℕ → Bool
should_log_retryable_packet_device_read attempt = (attempt == 1) || (attempt % 10 == 0)

-- io.EOF, or a QUIC application error with code 0.
is_graceful_io_end : IoError → Bool
is_graceful_io_end eof = true
is_graceful_io_end (application_error code) = code == 0
is_graceful_io_end _ = false

unfoldable pub is_graceful_stream_end : FrameError → Bool
unfolding is_graceful_io_end
is_graceful_stream_end (io_error e) = is_graceful_io_end e
is_graceful_stream_end _ = false
