-- ===== src/Samples/Outside.antt =====
-- What is round the concrete server: a network that connects to nothing, upgrades that succeed.
use single_proxy.Base.{true, false, none}
use single_proxy.Server.Proxy.{Network}
use single_proxy.Server.Serve.{Surroundings}
use single_proxy.Samples.{parse_page}

abbrev no_network : Network
no_network = record {
  dials = λ address. false;
  exchange = λ address r. none;
  uri_of = λ path r. path;
}

abbrev pub sample_env : Surroundings
sample_env = record {
  now = 9;
  network = no_network;
  delivers = true;
  upgrade = λ r w. (true, w);
  conn = 4;
  read_response = parse_page;
}
