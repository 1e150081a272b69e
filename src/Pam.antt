-- ===== src/Pam.antt =====
-- The management protocol: the state of a connection to it (src/server/include/pam.h, pamAuth.h and
-- pamRequest.h). An array of 255 bytes is a memory; a byte stored behind its end is `none`.
mod Tests
pub mod Auth
pub mod Methods
pub mod Bytes
pub mod Dispatch
pub mod Request
pub mod Machine
use socks5proxy.Prelude.{
  ℕ, zero, suc, ◌+◌, Memory, List, Option, some, none, slice, poke, ltb, ◌>>=◌, ◌>>◌, assert,
}
use socks5proxy.Buffer.{Buffer, buffer_read}

-- `enum pam_state`
pub data PamState : Type 0 where
  pam_auth pam_request pam_done pam_error : PamState

-- `enum pam_auth_state`
pub data PamAuthState : Type 0 where
  ver_n_nuser_n_npass username pass : PamAuthState

abbrev pub pam_version_1 : ℕ
pam_version_1 = 0x01

-- `PAM_BUFFER_SIZE`
abbrev pub pam_buffer_size : ℕ
pam_buffer_size = 65536

abbrev pub pam_auth_success : ℕ
pam_auth_success = 0x00

abbrev pub pam_auth_failure : ℕ
pam_auth_failure = 0x01

-- `struct pamAuth_st`
pub record PamAuthSt : Type 0 where
  pub state : PamAuthState
  pub status : ℕ
  pub n_user : ℕ
  pub n_pass : ℕ
  pub username : Memory
  pub pass : Memory

-- `enum pam_request_state`
pub data PamRequestState : Type 0 where
  ver_n_reserved method nbody read_body write : PamRequestState

-- `struct pamRequest_st`; its arrays have PAM_REQUEST_BODY_MAX_LENGTH bytes.
pub record PamRequestSt : Type 0 where
  pub state : PamRequestState
  pub reserved : ℕ
  pub method : ℕ
  pub read_nbody : ℕ
  pub read_body : Memory
  pub status : ℕ
  pub write_nbody : ℕ
  pub write_body : Memory

-- `struct pam`, with the interest that the selector holds for `client_fd`
pub record Pam : Type 0 where
  pub client_buffer : Buffer
  pub auth : PamAuthSt
  pub request : PamRequestSt
  pub client_interest : ℕ

-- `array[i] = buffer_read(b)` for the `n` indices from `i` on
unfoldable pub read_into : ℕ → ℕ → Buffer → Memory → Option (Buffer × Memory)
read_into zero i b array = some (b, array)
read_into (suc n) i b array = do (x, b') ← buffer_read b; read_into n (i + 1) b' (poke array i x)

-- `array[n] = '\0'` in an array of 255
unfoldable pub terminate : Memory → ℕ → Option Memory
terminate array n = do _ ← assert (ltb n 255); some (poke array n 0)

-- What an array of 255 bytes holds.
unfoldable pub array_255 : Memory → List ℕ
array_255 m = slice m 0 255
