-- ===== src/Protocol/MessageId.antt =====
-- Include/RRPG_MessageIdentifiers.h: `RRPG_ID` and `GameState`. Both have an unsigned char below
-- them and travel as a byte, so a value is a number.
use rrpg.Common.{ℕ, ◌+◌}
use rrpg.RakNet.MessageIds.{id_user_packet_enum}

abbrev pub s_game_started : ℕ
s_game_started = id_user_packet_enum

abbrev pub s_reply_player_list_request : ℕ
s_reply_player_list_request = s_game_started + 1

abbrev pub s_broadcast_chat : ℕ
s_broadcast_chat = s_reply_player_list_request + 1

abbrev pub s_take_turn : ℕ
s_take_turn = s_broadcast_chat + 1

abbrev pub s_update_game_state : ℕ
s_update_game_state = s_take_turn + 1

abbrev pub s_update_player_hp : ℕ
s_update_player_hp = s_update_game_state + 1

abbrev pub s_reply_player_stats_request : ℕ
s_reply_player_stats_request = s_update_player_hp + 1

abbrev pub c_intro : ℕ
c_intro = s_reply_player_stats_request + 1

abbrev pub c_ready : ℕ
c_ready = c_intro + 1

abbrev pub c_unready : ℕ
c_unready = c_ready + 1

abbrev pub c_player_list_request : ℕ
c_player_list_request = c_unready + 1

abbrev pub c_player_stats_request : ℕ
c_player_stats_request = c_player_list_request + 1

abbrev pub c_chat : ℕ
c_chat = c_player_stats_request + 1

abbrev pub c_job_chosen : ℕ
c_job_chosen = c_chat + 1

abbrev pub c_action_taken : ℕ
c_action_taken = c_job_chosen + 1

abbrev pub gs_pending : ℕ
gs_pending = 0

abbrev pub gs_character_select : ℕ
gs_character_select = 1

abbrev pub gs_main : ℕ
gs_main = 2

abbrev pub gs_game_over : ℕ
gs_game_over = 3
