-- ===== src/Buffer/SessionBufferConfig.antt =====
-- `SessionBufferConfig` of Buffer/SessionBufferConfig.h, with its two presets.
use iocpnetwork_engine.Prelude.{
  ℕ, ◌%◌, ◌*◌, ◌^◌, Bool, true, false, not, ◌&&◌, ◌||◌, if◌then◌else◌, ◌==◌, ltb, leb,
}
use iocpnetwork_engine.Prelude.Bits.{is_power_of_two}
use iocpnetwork_engine.Buffer.RecvPacketBuffer.{header_size, packet_size_limit}

pub record SessionBufferConfig : Type 0 where
  pub max_recv_packet_size : ℕ
  pub recv_ring_size : ℕ
  pub max_send_packet_size : ℕ
  pub send_queue_depth : ℕ
  pub recv_pause_job_depth : ℕ
  pub recv_resume_job_depth : ℕ

-- The doubling is one of `uint32_t`.
unfoldable pub is_valid : SessionBufferConfig → Bool
is_valid c =
    if ltb c.max_recv_packet_size header_size || ltb packet_size_limit c.max_recv_packet_size
    then false
    else if ltb c.max_send_packet_size header_size || ltb packet_size_limit c.max_send_packet_size
    then false
    else if not (is_power_of_two c.recv_ring_size)
    then false
    else if ltb c.recv_ring_size ((c.max_recv_packet_size * 2) % 2 ^ 32)
    then false
    else if c.send_queue_depth == 0
    then false
    else if not (c.recv_pause_job_depth == 0) && leb c.recv_pause_job_depth c.recv_resume_job_depth
    then false
    else true

-- `SessionBufferPreset::Server` and `SessionBufferPreset::Client`.
abbrev pub server_preset : SessionBufferConfig
server_preset = record {
  max_recv_packet_size = 4096;
  recv_ring_size = 16384;
  max_send_packet_size = packet_size_limit;
  send_queue_depth = 4096;
  recv_pause_job_depth = 256;
  recv_resume_job_depth = 64;
}

abbrev pub client_preset : SessionBufferConfig
client_preset = record {
  max_recv_packet_size = packet_size_limit;
  recv_ring_size = 262144;
  max_send_packet_size = 4096;
  send_queue_depth = 4096;
  recv_pause_job_depth = 256;
  recv_resume_job_depth = 64;
}
