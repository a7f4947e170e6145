-- ===== src/RecoverError/Reason.antt =====
-- `h2::Reason`: the error codes of HTTP/2 (RFC 7540, section 7).
use tonic_transport_native.Common.{ℕ}

abbrev pub no_error : ℕ
no_error = 0

abbrev pub protocol_error : ℕ
protocol_error = 1

abbrev pub internal_error : ℕ
internal_error = 2

abbrev pub flow_control_error : ℕ
flow_control_error = 3

abbrev pub settings_timeout : ℕ
settings_timeout = 4

abbrev pub refused_stream : ℕ
refused_stream = 7

abbrev pub cancel : ℕ
cancel = 8

abbrev pub compression_error : ℕ
compression_error = 9

abbrev pub connect_error : ℕ
connect_error = 10

abbrev pub enhance_your_calm : ℕ
enhance_your_calm = 11

abbrev pub inadequate_security : ℕ
inadequate_security = 12
