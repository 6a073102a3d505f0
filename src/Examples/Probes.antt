-- ===== src/Examples/Probes.antt =====
-- The probes of the operator, on a network of one service.
use konductor.Prelude.{◌≡◌, refl, false, none, some, String, return}
use konductor.Api.Errors.{ok}
use konductor.Memory.World.{World, empty}
use konductor.Cli.Operator.{Net, Ip, service_host, dial_safely, is_disallowed_ip}
use konductor.Cli.Operator.Hosts.{Safe, dial_safely-Safe}

abbrev public_ip : Ip
public_ip = record { loopback = false; multicast = false; unspecified = false; private = false }

abbrev net : Net World String
net = record {
  parse_url =
      λ url. ok (record { scheme = "http"; hostname = service_host "op" "sys"; path = "/healthz" });
  split_host_port = λ host. ok (service_host "op" "sys");
  parse_ip = λ s. some public_ip;
  dial = λ address. return (ok address);
  dial_tls = λ address. return (ok address);
  remote_address = λ conn. conn;
  close = λ conn. return tt;
  transport = λ dial dial_tls request.
      return (ok (record { version = "v1"; status_code = 200; status = "200 OK" }));
  cluster_transport = none;
  get = λ transport url. transport (record { host = service_host "op" "sys"; method = "GET" });
  code_text = λ n. "HTTP";
}

dial_safely-Safe_example : (net.dial "op:8081" empty ≡ (ok "op:8081", empty)) × Safe net "op:8081"
unfolding dial_safely is_disallowed_ip
dial_safely-Safe_example = dial_safely-Safe net net.dial "op:8081" empty empty "op:8081" refl
