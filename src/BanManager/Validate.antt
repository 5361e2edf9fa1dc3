-- ===== src/BanManager/Validate.antt =====
-- src/ban_manager.rs: the checks of a ban's target and reason.
use limiteron.Common.{
  ℕ, Bool, not, List, [], ◌∷◌, length, ltb, nat_beq, if◌then◌else◌, Text, len, has_control,
  all_hexdigits, split,
}
use limiteron.Errors.{Message, literal, format, chars, num, flow_validation_error, Result, ok, err}
use limiteron.Storage.Interface.{BanTarget, ip, user_id, mac}

abbrev pub invalid : Message → Result (Unit {0})
invalid message = err (flow_validation_error message)

abbrev pub max_ban_reason_length : ℕ
max_ban_reason_length = 500

abbrev pub max_user_id_length : ℕ
max_user_id_length = 100

abbrev pub max_mac_address_length : ℕ
max_mac_address_length = 17

unfoldable pub validate_ip_address : (Text → Bool) → Text → Result (Unit {0})
validate_ip_address is_ip_address address =
    if nat_beq (len address) 0
    then invalid (literal "IP地址不能为空")
    else if ltb 45 (len address)
    then invalid (literal "IP地址过长")
    else if not (is_ip_address address)
    then invalid (format "无效的IP地址格式: {}" (chars address ∷ []))
    else ok tt

unfoldable pub validate_user_id : Text → Result (Unit {0})
validate_user_id name =
    if nat_beq (len name) 0
    then invalid (literal "用户ID不能为空")
    else if ltb max_user_id_length (len name)
    then invalid (format "用户ID过长，最大长度为 {} 字符" (num max_user_id_length ∷ []))
    else if has_control name
    then invalid (literal "用户ID包含非法字符")
    else ok tt

unfoldable pub validate_parts : List Text → Result (Unit {0})
validate_parts [] = ok tt
validate_parts (part ∷ rest) =
    let later = validate_parts rest in
    if not (nat_beq (len part) 2)
    then invalid (literal "无效的MAC地址格式")
    else if not (all_hexdigits part)
    then invalid (literal "MAC地址包含非法字符")
    else later

unfoldable pub validate_mac_address : Text → Result (Unit {0})
validate_mac_address address =
    let parts = split 58 address in
    if nat_beq (len address) 0
    then invalid (literal "MAC地址不能为空")
    else if ltb max_mac_address_length (len address)
    then invalid (literal "MAC地址过长")
    else if not (nat_beq (length parts) 6)
    then invalid (literal "无效的MAC地址格式")
    else validate_parts parts

unfoldable pub validate_ban_target : (Text → Bool) → BanTarget → Result (Unit {0})
validate_ban_target is_ip_address (ip address) = validate_ip_address is_ip_address address
validate_ban_target is_ip_address (user_id name) = validate_user_id name
validate_ban_target is_ip_address (mac address) = validate_mac_address address

unfoldable pub validate_ban_reason : Text → Result (Unit {0})
validate_ban_reason reason =
    if nat_beq (len reason) 0
    then invalid (literal "封禁原因不能为空")
    else if ltb max_ban_reason_length (len reason)
    then invalid (format "封禁原因过长，最大长度为 {} 字符" (num max_ban_reason_length ∷ []))
    else if has_control reason
    then invalid (literal "封禁原因包含非法字符")
    else ok tt
