-- ===== src/TunDevice.antt =====
-- internal/tun: tun.go and tun_linux.go. The calls of package unix and of os.File are an interface.
pub mod Name
pub mod Opens
mod Tests
use Prim.Native.String.{String}
use mvp_vpn_lite.Base.{ℕ, bit_or, Option, none, some, Result, ok, err, panic}
use mvp_vpn_lite.Base.Act.{Act}
use mvp_vpn_lite.Io.{IoError, other_error}
use mvp_vpn_lite.Client.TunRun.{Tun}
use Name.{normalize_device_name}

-- `unix.NewIfreq`, `ifreq.SetUint16`, `ifreq.Name`, `unix.Open`, `unix.Close`, `os.NewFile`,
-- `unix.IoctlIfreq` with TUNSETIFF and `file.Close`. A descriptor and a file are numbers.
pub record Unix (Ifreq D : Type 0) : Type 0 where
  pub new_ifreq : String → Result IoError Ifreq
  pub set_uint16 : ℕ → Ifreq → Ifreq
  pub ifreq_name : Ifreq → String
  pub open_fd : String → Act D IoError ℕ
  pub close_fd : ℕ → D → D
  pub new_file : ℕ → String → D → Option ℕ × D
  pub tun_set_iff : ℕ → Ifreq → Act D IoError Ifreq
  pub close_file : ℕ → D → D

pub record Device : Type 0 where
  pub file : ℕ
  pub name : String

pub data OpenError : Type 0 where
  invalid_name : IoError → OpenError
  open_failed : IoError → OpenError
  nil_file : OpenError
  configure_failed : IoError → OpenError

abbrev pub device_path : String
device_path = "/dev/net/tun"

-- `unix.IFF_TUN` and `unix.IFF_NO_PI`
abbrev pub iff_tun : ℕ
iff_tun = 0x0001

abbrev pub iff_no_pi : ℕ
iff_no_pi = 0x1000

module _ {Ifreq D : Type 0} (unix : Unix Ifreq D) where
  -- After `unix.IoctlIfreq`.
  unfoldable pub after_ioctl : ℕ → Result IoError Ifreq × D → Result OpenError Device × D
  after_ioctl file (ok ifreq, d) = (ok (record { file = file; name = unix.ifreq_name ifreq }), d)
  after_ioctl file (err e, d) = (err (configure_failed e), unix.close_file file d)
  after_ioctl file (panic, d) = (panic, d)

  -- After `os.NewFile`.
  unfoldable pub after_new_file : Ifreq → ℕ → Option ℕ × D → Result OpenError Device × D
  after_new_file ifreq fd (none, d) = (err nil_file, unix.close_fd fd d)
  after_new_file ifreq fd (some file, d) = after_ioctl file (unix.tun_set_iff fd ifreq d)

  -- After `unix.Open`.
  unfoldable pub after_fd : Ifreq → Result IoError ℕ × D → Result OpenError Device × D
  after_fd ifreq (ok fd, d) = after_new_file ifreq fd (unix.new_file fd device_path d)
  after_fd ifreq (err e, d) = (err (open_failed e), d)
  after_fd ifreq (panic, d) = (panic, d)

  -- After `unix.NewIfreq`.
  unfoldable pub after_ifreq : Result IoError Ifreq → Act D OpenError Device
  after_ifreq (ok ifreq) d =
      after_fd (unix.set_uint16 (bit_or iff_tun iff_no_pi) ifreq) (unix.open_fd device_path d)
  after_ifreq (err e) d = (err (invalid_name e), d)
  after_ifreq panic d = (panic, d)

  unfoldable pub open_tun : String → Act D OpenError Device
  open_tun name d = after_ifreq (unix.new_ifreq (normalize_device_name name)) d

  -- The package as its callers see it: a device is its file, and an error the one that it wraps.
  unfoldable pub file_of : Result OpenError Device × D → Result IoError ℕ × D
  file_of (ok device, d) = (ok device.file, d)
  file_of (err (invalid_name e), d) = (err e, d)
  file_of (err (open_failed e), d) = (err e, d)
  file_of (err nil_file, d) = (err (other_error 0), d)
  file_of (err (configure_failed e), d) = (err e, d)
  file_of (panic, d) = (panic, d)

  unfoldable pub linux_tun : Tun D
  linux_tun = record {
    open_device = λ name d. file_of (open_tun name d);
    close_device = unix.close_file;
  }
