-- ===== src/L3/Rules.antt =====
-- l3/policy.py: the rules of the built-in policies, as the dictionaries of the source.
use pico_dome.Base.{String, Option, none, some, List, [], ◌∷◌}
use pico_dome.L3.Models.{RuleData}

-- A dictionary with or without `paths`; none of the rules has `addresses` or `syscalls`.
abbrev rule : String → String → String → Option (List String) → String → RuleData
rule rule_id target action paths description = record {
  rule_id = some rule_id;
  target = some target;
  action = some action;
  paths = paths;
  addresses = none;
  syscalls = none;
  description = some description;
}

abbrev pub default_rules : List RuleData
default_rules =
    rule "L3-FILE-R-001" "file_read" "allow"
      (some (
        "/usr/lib/**" ∷ "/lib/**" ∷ "/usr/share/**" ∷ "/etc/ld.so.cache" ∷ "/etc/localtime"
        ∷ "/proc/self/**" ∷ []))
      "Read system libraries and locale info"
    ∷ rule "L3-FILE-R-002" "file_read" "allow"
        (some ("/usr/lib/python3*/**" ∷ "**/site-packages/**" ∷ [])) "Read Python packages"
    ∷ rule "L3-FILE-R-003" "file_read" "allow" (some ("./**" ∷ "/tmp/**" ∷ []))
        "Read project and temp files only"
    ∷ rule "L3-FILE-R-004" "file_read" "allow"
        (some (
          "**/package.json" ∷ "**/package-lock.json" ∷ "**/requirements.txt" ∷ "**/pyproject.toml"
          ∷ "**/setup.cfg" ∷ "**/setup.py" ∷ "**/Cargo.toml" ∷ "**/go.mod" ∷ "**/go.sum"
          ∷ "**/.npmrc" ∷ "**/Makefile" ∷ "**/CMakeLists.txt" ∷ []))
        "Read project configuration files"
    ∷ rule "L3-FILE-W-001" "file_write" "allow"
        (some ("/tmp/**" ∷ "/dev/null" ∷ "/dev/stdout" ∷ "/dev/stderr" ∷ []))
        "Write to temp and stdio only"
    ∷ rule "L3-NET-OUT-001" "network_out" "deny" none "Block all outbound network"
    ∷ rule "L3-DNS-001" "dns_query" "allow" none "Allow DNS resolution"
    ∷ rule "L3-PROC-001" "process_spawn" "deny" none "Block process spawning"
    ∷ rule "L3-NET-BIND-001" "network_bind" "deny" none "Block network bind/listen"
    ∷ []

abbrev pub strict_rules : List RuleData
strict_rules =
    rule "L3-STRICT-001" "file_read" "deny" none "Deny all file reads"
    ∷ rule "L3-STRICT-002" "file_write" "deny" none "Deny all file writes"
    ∷ rule "L3-STRICT-003" "network_out" "deny" none "Deny all outbound network"
    ∷ rule "L3-STRICT-004" "network_in" "deny" none "Deny all inbound network"
    ∷ rule "L3-STRICT-005" "network_bind" "deny" none "Deny all network binding"
    ∷ rule "L3-STRICT-006" "process_spawn" "deny" none "Deny all process spawning"
    ∷ rule "L3-STRICT-007" "dns_query" "deny" none "Deny all DNS queries"
    ∷ rule "L3-STRICT-008" "file_exec" "deny" none "Deny all file execution"
    ∷ rule "L3-STRICT-009" "signal_send" "deny" none "Deny all signal sending"
    ∷ []

abbrev pub node_rules : List RuleData
node_rules =
    rule "L3-NODE-R-001" "file_read" "allow"
      (some (
        "/usr/lib/**" ∷ "/lib/**" ∷ "/usr/share/**" ∷ "/etc/localtime" ∷ "/proc/self/**"
        ∷ "**/node_modules/**" ∷ "**/package.json" ∷ "**/package-lock.json" ∷ "**/.npm/**" ∷ []))
      "Read Node.js system and project files"
    ∷ rule "L3-NODE-R-002" "file_write" "allow"
        (some (
          "/tmp/**" ∷ "/dev/null" ∷ "/dev/stdout" ∷ "/dev/stderr" ∷ "**/node_modules/**"
          ∷ "**/package-lock.json" ∷ "**/.npm/**" ∷ []))
        "Write to node_modules and npm cache"
    ∷ rule "L3-NODE-NET-001" "network_out" "allow" none "Allow outbound network (npm registry)"
    ∷ rule "L3-NODE-DNS-001" "dns_query" "allow" none "Allow DNS resolution"
    ∷ rule "L3-NODE-PROC-001" "process_spawn" "allow" none "Allow process spawning (node, npm)"
    ∷ rule "L3-NODE-BIND-001" "network_bind" "allow" none
        "Allow network binding (npm needs NETLINK bind for DNS)"
    ∷ rule "L3-NODE-EXEC-001" "file_exec" "allow"
        (some (
          "/usr/bin/node" ∷ "/usr/local/bin/node" ∷ "/usr/bin/npm" ∷ "/usr/local/bin/npm"
          ∷ "/usr/bin/npx" ∷ "/usr/local/bin/npx" ∷ []))
        "Allow node/npm execution"
    ∷ []

abbrev pub python_rules : List RuleData
python_rules =
    rule "L3-PY-R-001" "file_read" "allow"
      (some (
        "/usr/lib/**" ∷ "/lib/**" ∷ "/usr/share/**" ∷ "/etc/localtime" ∷ "/proc/self/**"
        ∷ "**/site-packages/**" ∷ "**/*.py" ∷ "**/pyproject.toml" ∷ "**/setup.py"
        ∷ "**/requirements.txt" ∷ "**/pip.conf" ∷ "**/.pip/**" ∷ []))
      "Read Python system and project files"
    ∷ rule "L3-PY-R-002" "file_write" "allow"
        (some (
          "/tmp/**" ∷ "/dev/null" ∷ "/dev/stdout" ∷ "/dev/stderr" ∷ "**/site-packages/**"
          ∷ "**/__pycache__/**" ∷ "**/*.pyc" ∷ []))
        "Write to site-packages and cache"
    ∷ rule "L3-PY-NET-001" "network_out" "allow" none "Allow outbound network (PyPI)"
    ∷ rule "L3-PY-DNS-001" "dns_query" "allow" none "Allow DNS resolution"
    ∷ rule "L3-PY-PROC-001" "process_spawn" "allow" none "Allow process spawning (python, pip)"
    ∷ rule "L3-PY-BIND-001" "network_bind" "allow" none
        "Allow network binding (pip needs NETLINK bind for DNS)"
    ∷ rule "L3-PY-EXEC-001" "file_exec" "allow"
        (some (
          "/usr/bin/python*" ∷ "/usr/local/bin/python*" ∷ "/usr/bin/pip*" ∷ "/usr/local/bin/pip*"
          ∷ []))
        "Allow python/pip execution"
    ∷ []
