-- ===== src/Tests/LocalSamples.antt =====
-- A lamp on the network, and drivers of it.
use linker.Prelude.{
  ℕ, String, Option, none, some, List, [], ◌∷◌, pos, nat_Eq, string_Eq, str_eq, if◌then◌else◌, true,
  false,
}
use linker.Python.Exc.{Exc, ok, err, os_error}
use linker.Python.Value.{Value, bool, int, str, obj, field, end, finite}
use linker.Tuya.Config.{Address, TuyaDeviceConfig, TuyaPairingConfig, TuyaDiscoveryOptions}
use linker.Tuya.Dps.{Reading}
use linker.Tuya.Local.{Outside, bytes, missing, TuyaLocalDriver, blank}
use linker.Tests.Samples.{crypto, encodings, digests, colorsys, mapping}

-- What the lamp reports: it is on, orange, at level 100.
abbrev report : Value
report = obj (
    field "dps"
      (obj (field "20" (bool true) (field "22" (int (pos 398)) (field "24" (str "ff8000") end))))
      end)

abbrev reading : Reading
reading = record {
  loads = λ bytes. some report;
  int10 = λ s.
      if str_eq s "20"
      then some (pos 20)
      else if str_eq s "22"
      then some (pos 22)
      else if str_eq s "24"
      then some (pos 24)
      else none;
}

abbrev private_address : String → Option Address
private_address ip =
    some (record { version = 4; is_loopback = false; is_private = true; is_link_local = false })

-- The frame with sequence number 1, the code of a query and the text {}.
abbrev pub answer_bytes : List ℕ
answer_bytes =
    0 ∷ 0 ∷ 0x55 ∷ 0xaa ∷ 0 ∷ 0 ∷ 0 ∷ 1 ∷ 0 ∷ 0 ∷ 0 ∷ 10 ∷ 0 ∷ 0 ∷ 0 ∷ 10 ∷ 123 ∷ 125 ∷ 0 ∷ 0 ∷ 2
    ∷ 12 ∷ 0 ∷ 0 ∷ 0xaa ∷ 0x55 ∷ []

-- The lamp answers the first request.
abbrev pub answering : Outside
answering = record {
  crypto = crypto;
  encodings = encodings;
  digests = digests;
  reading = reading;
  colorsys = colorsys;
  ip_address = private_address;
  sha256_hex = λ id. "5a";
  dumps = λ v. 123 ∷ 125 ∷ [];
  open_connection = λ n. ok tt;
  drain = λ n. ok tt;
  wait_closed = λ n. ok tt;
  arrivals = λ n. bytes answer_bytes ∷ [];
  callback = λ n state callback. ok tt;
  write_file = λ n. ok tt;
  now = λ n. n;
}

-- No connection can be opened.
abbrev pub unreachable : Outside
unreachable = record answering { open_connection = λ n. err (os_error "no route to host") }

abbrev pub reset_by_peer : Exc
reset_by_peer = os_error "connection reset by peer"

-- Nothing arrives, and closing the connection raises.
abbrev pub broken : Outside
broken = record answering { arrivals = λ n. []; wait_closed = λ n. err reset_by_peer }

abbrev pub lamp_device : TuyaDeviceConfig
lamp_device = record {
  ip = "10.0.0.7";
  device_id = "lamp0001";
  local_key = "0123456789abcdef";
  protocol_version = "3.1";
  dps = some mapping;
  public_name = "LED lamp";
  port = pos 6668;
  timeout_s = finite (pos 3) 0;
  retries = pos 1;
}

abbrev pub profile : TuyaPairingConfig
profile = record {
  local_key = "0123456789abcdef";
  protocol_version = "3.1";
  dps = mapping;
  public_name = "LED lamp";
  port = pos 6668;
  timeout_s = finite (pos 3) 0;
  retries = pos 1;
}

abbrev pub scan_options : TuyaDiscoveryOptions
scan_options = record {
  enabled = true;
  broadcast_address = "255.255.255.255";
  ports = pos 6666 ∷ pos 6667 ∷ [];
}

-- A driver of the lamp that is not connected.
abbrev pub idle : TuyaLocalDriver
idle = blank (some lamp_device) scan_options (some profile) true missing

-- The same driver with an open connection and its reader.
abbrev pub connected : TuyaLocalDriver
connected = record idle { writer = some false; has_reader = true; reader_task = some false }

-- A driver that has found one device and has none.
abbrev pub finder : String → TuyaLocalDriver
finder id = record (blank none scan_options (some profile) true missing) {
  discovered = ("light.5a", record { id = id; ip = "10.0.0.7" }) ∷ [];
}
