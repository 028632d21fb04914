-- ===== src/Uds/Nrc.antt =====
-- crates/uds/src/nrc.rs: the negative-response codes.
pub mod Codes
use klartext.Prelude.{ℕ, Bool, ◌&&◌, leb, ◌==◌, if◌then◌else◌}

pub data Nrc : Type 0 where
  general_reject service_not_supported sub_function_not_supported
        incorrect_message_length_or_invalid_format response_too_long busy_repeat_request
        conditions_not_correct request_sequence_error no_response_from_subnet_component
        failure_prevents_execution_of_requested_action request_out_of_range security_access_denied
        authentication_required invalid_key exceeded_number_of_attempts
        required_time_delay_not_expired upload_download_not_accepted transfer_data_suspended
        general_programming_failure wrong_block_sequence_counter
        request_correctly_received_response_pending sub_function_not_supported_in_active_session
        service_not_supported_in_active_session rpm_too_high rpm_too_low engine_is_running
        engine_is_not_running engine_run_time_too_low temperature_too_high temperature_too_low
        vehicle_speed_too_high vehicle_speed_too_low throttle_pedal_too_high throttle_pedal_too_low
        transmission_range_not_in_neutral transmission_range_not_in_gear brake_switches_not_closed
        shifter_lever_not_in_park torque_converter_clutch_locked voltage_too_high voltage_too_low :
      Nrc
  secured_data_reserved manufacturer reserved : ℕ → Nrc

-- `Nrc::code`.
unfoldable pub code : Nrc → ℕ
code general_reject = 0x10
code service_not_supported = 0x11
code sub_function_not_supported = 0x12
code incorrect_message_length_or_invalid_format = 0x13
code response_too_long = 0x14
code busy_repeat_request = 0x21
code conditions_not_correct = 0x22
code request_sequence_error = 0x24
code no_response_from_subnet_component = 0x25
code failure_prevents_execution_of_requested_action = 0x26
code request_out_of_range = 0x31
code security_access_denied = 0x33
code authentication_required = 0x34
code invalid_key = 0x35
code exceeded_number_of_attempts = 0x36
code required_time_delay_not_expired = 0x37
code upload_download_not_accepted = 0x70
code transfer_data_suspended = 0x71
code general_programming_failure = 0x72
code wrong_block_sequence_counter = 0x73
code request_correctly_received_response_pending = 0x78
code sub_function_not_supported_in_active_session = 0x7e
code service_not_supported_in_active_session = 0x7f
code rpm_too_high = 0x81
code rpm_too_low = 0x82
code engine_is_running = 0x83
code engine_is_not_running = 0x84
code engine_run_time_too_low = 0x85
code temperature_too_high = 0x86
code temperature_too_low = 0x87
code vehicle_speed_too_high = 0x88
code vehicle_speed_too_low = 0x89
code throttle_pedal_too_high = 0x8a
code throttle_pedal_too_low = 0x8b
code transmission_range_not_in_neutral = 0x8c
code transmission_range_not_in_gear = 0x8d
code brake_switches_not_closed = 0x8f
code shifter_lever_not_in_park = 0x90
code torque_converter_clutch_locked = 0x91
code voltage_too_high = 0x92
code voltage_too_low = 0x93
code (secured_data_reserved b) = b
code (manufacturer b) = b
code (reserved b) = b

-- The ranges of `Nrc::from`, for a byte that is none of the named codes.
unfoldable pub from_range : ℕ → Nrc
from_range byte =
    if leb 0x38 byte && leb byte 0x4f
    then secured_data_reserved byte
    else if leb 0xf0 byte && leb byte 0xff
    then manufacturer byte
    else reserved byte

unfoldable pub from_high : ℕ → Nrc
unfolding from_range
from_high byte =
    if byte == 0x81
    then rpm_too_high
    else if byte == 0x82
    then rpm_too_low
    else if byte == 0x83
    then engine_is_running
    else if byte == 0x84
    then engine_is_not_running
    else if byte == 0x85
    then engine_run_time_too_low
    else if byte == 0x86
    then temperature_too_high
    else if byte == 0x87
    then temperature_too_low
    else if byte == 0x88
    then vehicle_speed_too_high
    else if byte == 0x89
    then vehicle_speed_too_low
    else if byte == 0x8a
    then throttle_pedal_too_high
    else if byte == 0x8b
    then throttle_pedal_too_low
    else if byte == 0x8c
    then transmission_range_not_in_neutral
    else if byte == 0x8d
    then transmission_range_not_in_gear
    else if byte == 0x8f
    then brake_switches_not_closed
    else if byte == 0x90
    then shifter_lever_not_in_park
    else if byte == 0x91
    then torque_converter_clutch_locked
    else if byte == 0x92
    then voltage_too_high
    else if byte == 0x93
    then voltage_too_low
    else from_range byte

unfoldable pub from_middle : ℕ → Nrc
unfolding from_high
from_middle byte =
    if byte == 0x70
    then upload_download_not_accepted
    else if byte == 0x71
    then transfer_data_suspended
    else if byte == 0x72
    then general_programming_failure
    else if byte == 0x73
    then wrong_block_sequence_counter
    else if byte == 0x78
    then request_correctly_received_response_pending
    else if byte == 0x7e
    then sub_function_not_supported_in_active_session
    else if byte == 0x7f
    then service_not_supported_in_active_session
    else from_high byte

unfoldable pub from_low : ℕ → Nrc
unfolding from_middle
from_low byte =
    if byte == 0x10
    then general_reject
    else if byte == 0x11
    then service_not_supported
    else if byte == 0x12
    then sub_function_not_supported
    else if byte == 0x13
    then incorrect_message_length_or_invalid_format
    else if byte == 0x14
    then response_too_long
    else if byte == 0x21
    then busy_repeat_request
    else if byte == 0x22
    then conditions_not_correct
    else if byte == 0x24
    then request_sequence_error
    else if byte == 0x25
    then no_response_from_subnet_component
    else if byte == 0x26
    then failure_prevents_execution_of_requested_action
    else if byte == 0x31
    then request_out_of_range
    else if byte == 0x33
    then security_access_denied
    else if byte == 0x34
    then authentication_required
    else if byte == 0x35
    then invalid_key
    else if byte == 0x36
    then exceeded_number_of_attempts
    else if byte == 0x37
    then required_time_delay_not_expired
    else from_middle byte

-- `Nrc::from`: the arms of its `match` in three blocks, then the ranges.
unfoldable pub from : ℕ → Nrc
unfolding from_low
from byte = from_low byte
