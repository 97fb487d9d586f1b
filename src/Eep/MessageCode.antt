-- ===== src/Eep/MessageCode.antt =====
-- EEPClient::MESSAGE_CODE of eep_client.h.
use linux_pbs.Base.{ℕ}

abbrev pub ack : ℕ
ack = 0x10

abbrev pub nak : ℕ
nak = 0x11

abbrev pub health_status_request : ℕ
health_status_request = 0x72

abbrev pub health_status_response : ℕ
health_status_response = 0x13

abbrev pub watchdog_request : ℕ
watchdog_request = 0x73

abbrev pub watchdog_response : ℕ
watchdog_response = 0x15

abbrev pub start_request : ℕ
start_request = 0x40

abbrev pub start_response : ℕ
start_response = 0x41

abbrev pub stop_request : ℕ
stop_request = 0x42

abbrev pub stop_response : ℕ
stop_response = 0x43

abbrev pub di_status_notification : ℕ
di_status_notification = 0x60

abbrev pub di_status_request : ℕ
di_status_request = 0x61

abbrev pub di_status_response : ℕ
di_status_response = 0x62

abbrev pub set_do_request : ℕ
set_do_request = 0x63

abbrev pub set_di_port_configuration : ℕ
set_di_port_configuration = 0x64

abbrev pub get_obu_information_request : ℕ
get_obu_information_request = 0x20

abbrev pub obu_information_notification : ℕ
obu_information_notification = 0x21

abbrev pub get_obu_information_stop : ℕ
get_obu_information_stop = 0x22

abbrev pub deduct_request : ℕ
deduct_request = 0x82

abbrev pub transaction_data : ℕ
transaction_data = 0xF4

abbrev pub deduct_stop_request : ℕ
deduct_stop_request = 0x83

abbrev pub transaction_request : ℕ
transaction_request = 0x76

abbrev pub cpo_information_display_request : ℕ
cpo_information_display_request = 0x30

abbrev pub cpo_information_display_result : ℕ
cpo_information_display_result = 0x31

abbrev pub carpark_process_complete_notification : ℕ
carpark_process_complete_notification = 0x32

abbrev pub carpark_process_complete_result : ℕ
carpark_process_complete_result = 0x37

abbrev pub dsrc_process_complete_notification : ℕ
dsrc_process_complete_notification = 0x33

abbrev pub stop_request_of_related_information_distribution : ℕ
stop_request_of_related_information_distribution = 0x34

abbrev pub dsrc_status_request : ℕ
dsrc_status_request = 0x35

abbrev pub dsrc_status_response : ℕ
dsrc_status_response = 0x36

abbrev pub time_calibration_request : ℕ
time_calibration_request = 0x50

abbrev pub time_calibration_response : ℕ
time_calibration_response = 0x51

abbrev pub eep_restart_inquiry : ℕ
eep_restart_inquiry = 0x53

abbrev pub eep_restart_inquiry_response : ℕ
eep_restart_inquiry_response = 0x54

abbrev pub notification_log : ℕ
notification_log = 0xF2

abbrev pub set_parking_available : ℕ
set_parking_available = 0x55

abbrev pub cd_download_request : ℕ
cd_download_request = 0x93
