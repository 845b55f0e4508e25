-- ===== src/Config/Defaults.antt =====
-- The default configuration of config.go: its text, and what it says.
use leng.Prelude.{false, none, List, [], ◌∷◌, pos, Text, bytes, join, comparable_text}
use leng.Config.{Config}

-- `defaultConfig`, a line at a time
unfoldable pub default_lines : List Text
default_lines =
    bytes ""
    ∷ bytes "# version this config was generated from"
    ∷ bytes "version = \"%s\""
    ∷ bytes ""
    ∷ bytes "# log configuration"
    ∷ bytes "# format: comma separated list of options, where options is one of "
    ∷ bytes "#   file:<filename>@<loglevel>"
    ∷ bytes "#   stderr>@<loglevel>"
    ∷ bytes "#   syslog@<loglevel>"
    ∷ bytes "# loglevel: 0 = errors and important operations, 1 = dns queries, 2 = debug"
    ∷ bytes "# e.g. logconfig = \"file:leng.log@2,syslog@1,stderr@2\""
    ∷ bytes "logconfig = \"stderr@2\""
    ∷ bytes ""
    ∷ bytes "# apidebug enables the debug mode of the http api library"
    ∷ bytes "apidebug = false"
    ∷ bytes ""
    ∷ bytes "# address to bind to for the DNS server"
    ∷ bytes "bind = \"0.0.0.0:53\""
    ∷ bytes ""
    ∷ bytes "# address to bind to for the API server"
    ∷ bytes "api = \"127.0.0.1:8080\""
    ∷ bytes ""
    ∷ bytes "# concurrency interval for lookups in milliseconds"
    ∷ bytes "interval = 200"
    ∷ bytes ""
    ∷ bytes
        "# question cache capacity, 0 for infinite but not recommended (this is used for storing logs)"
    ∷ bytes "questioncachecap = 5000"
    ∷ bytes ""
    ∷ bytes "# timeout for upstream DNS queries, in ms"
    ∷ bytes "timeout = 5000"
    ∷ bytes ""
    ∷ bytes "# manual whitelist entries - comments for reference"
    ∷ bytes "whitelist = ["
    ∷ bytes "\t# \"getsentry.com\","
    ∷ bytes "\t# \"www.getsentry.com\""
    ∷ bytes "]"
    ∷ bytes ""
    ∷ bytes "# manual custom dns entries - comments for reference"
    ∷ bytes "customdnsrecords = ["
    ∷ bytes "    # \"example.mywebsite.tld      IN A       10.0.0.1\""
    ∷ bytes "    # \"example.other.tld          IN CNAME   wikipedia.org\""
    ∷ bytes "]"
    ∷ bytes ""
    ∷ bytes "# How deep to follow chains of CNAME records"
    ∷ bytes "# set to 0 to disable CNAME-following entirely"
    ∷ bytes "# (anything more than 10 should be more than plenty)"
    ∷ bytes "# see https://github.com/Cottand/leng/wiki/CNAME%E2%80%90following-DNS"
    ∷ bytes "followCnameDepth = 12"
    ∷ bytes ""
    ∷ bytes "[Blocking]"
    ∷ bytes "\t# response to blocked queries with a NXDOMAIN"
    ∷ bytes "\tnxdomain = false"
    ∷ bytes "\t# ipv4 address to forward blocked queries to"
    ∷ bytes "\tnullroute = \"0.0.0.0\""
    ∷ bytes "\t# ipv6 address to forward blocked queries to"
    ∷ bytes "\tnullroutev6 = \"0:0:0:0:0:0:0:0\""
    ∷ bytes "\t# manual blocklist entries"
    ∷ bytes "\tblocklist = []"
    ∷ bytes "\t# list of sources to pull blocklists from, stores them in ./sources"
    ∷ bytes "\tsources = ["
    ∷ bytes "\t\t\"https://raw.githubusercontent.com/StevenBlack/hosts/master/hosts\","
    ∷ bytes "\t\t\"https://sysctl.org/cameleon/hosts\","
    ∷ bytes "\t\t\"https://s3.amazonaws.com/lists.disconnect.me/simple_tracking.txt\","
    ∷ bytes "\t\t\"https://s3.amazonaws.com/lists.disconnect.me/simple_ad.txt\","
    ∷ bytes "\t\t\"https://gitlab.com/quidsup/notrack-blocklists/raw/master/notrack-blocklist.txt\""
    ∷ bytes "\t]"
    ∷ bytes ""
    ∷ bytes
        "\t# list of locations to recursively read blocklists from (warning, every file found is assumed to be a hosts-file or domain list)"
    ∷ bytes "\t# sourcesStore (see below) is always included in sourcedirs"
    ∷ bytes "\tsourcedirs = [\"./sources\"]"
    ∷ bytes "\t# location where to download blocklists into"
    ∷ bytes "\tsourcesStore = \"./sources\""
    ∷ bytes ""
    ∷ bytes ""
    ∷ bytes "[Upstream]"
    ∷ bytes "\t# Dns over HTTPS provider to use."
    ∷ bytes "\tDoH = \"https://cloudflare-dns.com/dns-query\""
    ∷ bytes "\t# nameservers to forward queries to"
    ∷ bytes "\tnameservers = [\"1.1.1.1:53\", \"1.0.0.1:53\"]"
    ∷ bytes "\t# query timeout for dns lookups in seconds"
    ∷ bytes "\ttimeout_s = 5"
    ∷ bytes "\t# cache entry lifespan in seconds"
    ∷ bytes "\texpire = 600"
    ∷ bytes "\t# cache capacity, 0 for infinite"
    ∷ bytes "\tmaxcount = 0"
    ∷ bytes ""
    ∷ bytes "# Prometheus metrics - disabled by default"
    ∷ bytes "[Metrics]"
    ∷ bytes "\tenabled = false"
    ∷ bytes "\tpath = \"/metrics\""
    ∷ bytes "\t# see https://cottand.github.io/leng/Prometheus-Metrics.html"
    ∷ bytes "\thighCardinalityEnabled = false"
    ∷ bytes "    histogramsEnabled = false"
    ∷ bytes "\tresetPeriodMinutes = 60"
    ∷ bytes ""
    ∷ bytes "[DnsOverHttpServer]"
    ∷ bytes "\tenabled = false"
    ∷ bytes "\tbind = \"0.0.0.0:80\""
    ∷ bytes "\ttimeoutMs = 5000"
    ∷ bytes ""
    ∷ bytes
        "    # TLS config is not required for DoH if you have some proxy (ie, caddy, nginx, traefik...) manage HTTPS for you"
    ∷ bytes "\t[DnsOverHttpServer.TLS]"
    ∷ bytes "\t\tenabled = false"
    ∷ bytes "\t\tcertPath = \"\""
    ∷ bytes "\t\tkeyPath = \"\""
    ∷ bytes "\t\t# if empty, system CAs will be used"
    ∷ bytes "\t\tcaPath = \"\""
    ∷ bytes ""
    ∷ []

unfoldable pub default_config : Text
default_config = join default_lines (bytes "\n")

-- The value of a `Config` of which nothing is set.
abbrev pub zero_config : Config
zero_config = record {
  version = [];
  log_config = [];
  bind = [];
  api = [];
  interval = pos 0;
  timeout = pos 0;
  question_cache_cap = pos 0;
  ttl = 0;
  custom_dns_records = [];
  api_debug = false;
  blocking = record {
    sources = [];
    sources_store = [];
    source_dirs = [];
    blocklist = [];
    whitelist = [];
    nxdomain = false;
    nullroute = [];
    nullroutev6 = [];
  };
  upstream = record { doh = []; nameservers = []; timeout_s = pos 0; expire = 0; maxcount = pos 0 };
  metrics = record {
    enabled = false;
    path = [];
    high_cardinality_enabled = false;
    reset_period_minutes = pos 0;
    histograms_enabled = false;
  };
  dns_over_http_server = record {
    enabled = false;
    bind = [];
    timeout_ms = pos 0;
    tls = record { cert_path = []; key_path = []; ca_path = []; enabled = false };
    parsed_tls = none;
  };
  follow_cname_depth = 0;
}

-- What the text sets in `zero_config` by the rules of TOML. `ttl` is not in it, `whitelist` stands
-- where `Config` has no such field, and the fields of `TlsConfig` are not exported.
abbrev pub default_settings : Config
default_settings = record zero_config {
  version = bytes "%s";
  log_config = bytes "stderr@2";
  bind = bytes "0.0.0.0:53";
  api = bytes "127.0.0.1:8080";
  interval = pos 200;
  timeout = pos 5000;
  question_cache_cap = pos 5000;
  blocking = record zero_config.blocking {
    sources =
        bytes "https://raw.githubusercontent.com/StevenBlack/hosts/master/hosts"
        ∷ bytes "https://sysctl.org/cameleon/hosts"
        ∷ bytes "https://s3.amazonaws.com/lists.disconnect.me/simple_tracking.txt"
        ∷ bytes "https://s3.amazonaws.com/lists.disconnect.me/simple_ad.txt"
        ∷ bytes "https://gitlab.com/quidsup/notrack-blocklists/raw/master/notrack-blocklist.txt"
        ∷ [];
    sources_store = bytes "./sources";
    source_dirs = bytes "./sources" ∷ [];
    nullroute = bytes "0.0.0.0";
    nullroutev6 = bytes "0:0:0:0:0:0:0:0";
  };
  upstream = record {
    doh = bytes "https://cloudflare-dns.com/dns-query";
    nameservers = bytes "1.1.1.1:53" ∷ bytes "1.0.0.1:53" ∷ [];
    timeout_s = pos 5;
    expire = 600;
    maxcount = pos 0;
  };
  metrics = record zero_config.metrics { path = bytes "/metrics"; reset_period_minutes = pos 60 };
  dns_over_http_server = record zero_config.dns_over_http_server {
    bind = bytes "0.0.0.0:80";
    timeout_ms = pos 5000;
  };
  follow_cname_depth = 12;
}
