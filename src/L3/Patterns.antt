-- ===== src/L3/Patterns.antt =====
-- l3/backends/subprocess_backend.py: the regular expressions that the output of a process is searched for.
use pico_dome.Base.{String, List, [], ◌∷◌}
use pico_dome.L3.Run.{Verdict, deny, kill}

abbrev pub ip_pattern : String
ip_pattern =
    "(?:(?:25[0-5]|2[0-4]\\d|1\\d\\d|\\d{1,2})\\.){3}(?:25[0-5]|2[0-4]\\d|1\\d\\d|\\d{1,2})"

abbrev pub url_pattern : String
url_pattern = "https?://[^\\s<>\"{}|\\\\^`\\[\\]]+"

abbrev pub local_addresses : List String
local_addresses = "0.0.0.0" ∷ "127.0.0.1" ∷ "255.255.255.255" ∷ []

abbrev pub write_indicators : List (String × String)
write_indicators =
    ("writing to ([^\\s]+)", "file_write_indicator")
    ∷ ("wrote (\\d+) bytes to ([^\\s]+)", "file_write_bytes")
    ∷ ("saved to ([^\\s]+)", "file_save")
    ∷ ("exported to ([^\\s]+)", "file_export")
    ∷ []

abbrev pub spawn_patterns : List String
spawn_patterns =
    "executing: ([^\\s]+)" ∷ "spawning ([^\\s]+)"
    ∷ "subprocess\\.(?:run|Popen|call|check_call|check_output)" ∷ []

-- A pattern with the id, the operation and the verdict of its event
pub record Suspicion : Type 0 where
  pub pattern_text : String
  pub rule_id : String
  pub operation : String
  pub verdict : Verdict

abbrev pub suspicion : String → String → String → Verdict → Suspicion
suspicion p i o v = record { pattern_text = p; rule_id = i; operation = o; verdict = v }

abbrev pub suspicions : List Suspicion
suspicions =
    suspicion "(?i)(eval\\s*\\(|exec\\s*\\(|compile\\s*\\()" "L3-SUS-001" "dynamic_code_exec" deny
    ∷ suspicion
        "(?i)(subprocess\\.(?:call|run|Popen|check_output|check_call)|os\\.system|os\\.popen|commands\\.getoutput)"
        "L3-SUS-002" "shell_execution" deny
    ∷ suspicion "(?i)(/etc/passwd|/etc/shadow|/etc/sudoers)" "L3-SUS-003" "sensitive_file_access"
        deny
    ∷ suspicion "(?i)(curl|wget|nc\\s|netcat|telnet)" "L3-SUS-004" "network_tool_usage" deny
    ∷ suspicion "(?i)(chmod\\s\\+x|chmod\\s777)" "L3-SUS-005" "permission_escalation" deny
    ∷ suspicion "(?i)(base64\\.(?:b64decode|b64encode|decode|encode)\\s*\\(|base64\\s+-d\\b)"
        "L3-SUS-006" "base64_decoding" deny
    ∷ suspicion "(?i)(rm\\s+-rf\\s+/|dd\\s+if=/dev)" "L3-SUS-007" "destructive_command" kill
    ∷ suspicion "(?i)(/proc/self|ptrace|process_vm_readv)" "L3-SUS-008" "process_introspection" deny
    ∷ suspicion "(?i)(\\.ssh/|id_rsa|id_ed25519|authorized_keys)" "L3-SUS-009" "ssh_key_access" deny
    ∷ suspicion "(?i)(/root/\\.\\w+|/home/\\w+/\\.)" "L3-SUS-010" "dotfile_access" deny
    ∷ []
