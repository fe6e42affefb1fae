-- ===== src/Tests/ClientTests.antt =====
-- The theorems on the server's client, applied to samples.
use linker.Prelude.{◌≢◌, none, some, ◌≡◌, [], ◌∷◌, false, true}
use linker.Python.Exc.{ok, err, os_error}
use linker.Boundary.{LinkerBoundary}
use linker.Server.{loaded}
use linker.Server.Client.{Network, LinkerServerClient, run}
use linker.Server.Client.Once.{run-once}
use linker.Server.Publisher.{Publisher, publish_pass}
use linker.Tuya.Local.{TuyaLocalDriver}
use linker.Tuya.Local.Contract.{tuya_driver, tuya_watched}
use linker.Tuya.Local.Contract.Publishing.{publish_pass-IsDisconnected}
use linker.Tuya.Local.Exchange.Failures.{IsDisconnected}
use linker.Tests.Samples.{clock, config, lamp, lamp_boundary, lamp_driver}
use linker.Tests.ServerTests.{iso, command_text}
use linker.Tests.DiscoveryTests.{lan}
use linker.Tests.LocalSamples.{answering, idle}

-- The server cannot be reached, and nobody stops the client.
abbrev refusing : Network
refusing = record {
  open_connection = λ n. err (os_error "connection refused");
  send = λ n. ok tt;
  received = λ n. [];
  ended = λ n. ok tt;
  stop = λ n. false;
}

abbrev client_of : {D : Type 0} → LinkerBoundary D → LinkerServerClient D
client_of boundary = record {
  boundary = boundary;
  reconnect_initial_s = 1;
  reconnect_max_s = 30;
  last_error = none;
  delay = 1;
  ticks = 0;
  connections = 0;
  sent = [];
  waited = [];
}

run-once_example :
    let r = run refusing lamp_driver (λ n. (ok tt, n)) clock iso 2 (client_of lamp_boundary) in
    (r.0 ≢ none) × (r.1.connections ≡ 1)
run-once_example =
    run-once refusing lamp_driver (λ n. (ok tt, n)) clock iso 0 (client_of lamp_boundary) (λ n h. h)

-- A connection on which one command arrives.
abbrev serving : Network
serving = record {
  open_connection = λ n. ok tt;
  send = λ n. ok tt;
  received = λ n. loaded command_text ∷ [];
  ended = λ n. ok tt;
  stop = λ n. true;
}

abbrev publisher : Publisher TuyaLocalDriver
publisher = record {
  client = client_of (record {
    config = config;
    light_id = some "light.lamp";
    device_id = some "lamp0001";
    descriptor = some lamp;
    journal = [];
    driver = idle;
    built = 0;
  });
  delay = 1;
  subscription = none;
}

-- A pass with one more poll, which the lamp does not answer.
publish_pass-IsDisconnected_example :
    IsDisconnected
      (publish_pass serving
        (tuya_driver answering λ n. lan)
        (tuya_watched answering 7)
        clock
        15
        1
        publisher).1.client.boundary.driver
publish_pass-IsDisconnected_example =
    publish_pass-IsDisconnected answering (λ n. lan) serving clock 7 15 1 publisher
