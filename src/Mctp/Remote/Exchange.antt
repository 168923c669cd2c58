-- ===== src/Mctp/Remote/Exchange.antt =====
-- One request and its response (services/mctp/client-ipc/src/lib.rs): the client reads the header that
-- the server's dispatch put into its response.
use openprot.Prelude.{
  copy_at, ℕ, ◌^◌, ◌≤◌, ◌<◌, ◌≡◌, refl, some, List, Result, ok, err, length, take, arith, ltb,
  false, not, if◌then◌else◌,
}
use openprot.Mctp.{MctpError}
use openprot.Mctp.Wire.{WireError, MctpResponseHeader, response_bytes, response_code}
use openprot.Mctp.Wire.Buffers.{Wrote}
use openprot.Mctp.Wire.RoundTrip.{decode_response_header-bytes}
use openprot.Mctp.Stack.{Router, LinearMap}
use openprot.Mctp.Server.{PendingRecv, Server}
use openprot.Mctp.Server.Dispatch.{replied, dispatch_mctp_op}
use openprot.Mctp.Client.{IpcMctpClient, is_success, read_response, send_recv, transact, request}
use openprot.Mctp.Remote.{World, channel}

-- What the client makes of a header.
abbrev pub header_result : MctpResponseHeader → Result MctpError (MctpResponseHeader × ℕ)
header_result h = if not (is_success h) then err record { code = response_code h } else ok (h, 12)

abbrev pub Fits : MctpResponseHeader → Type 0
Fits h = (h.handle < 2 ^ 32) × (h.payload_len < 2 ^ 16)

-- Twelve bytes are taken back from the front of the buffer that they were written to.
pub take_front :
    (h : MctpResponseHeader) (buf : List ℕ)
    → take 12 (copy_at buf 0 (response_bytes h)) ≡ response_bytes h
unfolding response_bytes
take_front h buf = refl

read_header :
    (h : MctpResponseHeader) (buf : List ℕ)
    → Fits h
    → read_response (copy_at buf 0 (response_bytes h)) (ok 12) ≡ header_result h
unfolding read_response
read_header h buf fits = rw (take_front h buf, decode_response_header-bytes h fits.0 fits.1) refl

module _ (rt : Router) (map : LinearMap PendingRecv) where
  pub exchange :
      (c : IpcMctpClient) (w : World rt map) (enc : List ℕ × Result {0, 0} WireError ℕ)
      (bytes : List ℕ) (s : Server rt map) (h : MctpResponseHeader)
      → Wrote (length c.request_buf) bytes enc
      → length bytes ≤ 1035
      → Fits h
      → dispatch_mctp_op rt map bytes w.response w.server w.recv_buf w.now
        ≡ some (replied rt map s w.recv_buf (copy_at w.response 0 (response_bytes h), 12))
      → request (channel rt map) c w enc ≡ (
        record c {
          request_buf = enc.0;
          response_buf = copy_at c.response_buf 0 (response_bytes h);
        },
        record w { server = s; response = copy_at w.response 0 (response_bytes h) },
        header_result h,
      )
  unfolding request transact send_recv
  exchange c w (buf, result) bytes s h wrote small fits served =
      rw
        (
          wrote.0,
          the_room,
          wrote.1,
          served,
          take_front h w.response,
          read_header h c.response_buf fits,
        )
        refl
    where
      the_room : ltb 1035 (length bytes) ≡ false
      the_room = ground arith
